-- ===== src/Dhcp/Failing.antt =====
-- trusted_applet/net.go: an address that the stack refuses.
use armored_witness_applet.Prelude.{◌≡◌, refl, true, false, none, ◌≢◌}
use armored_witness_applet.Dhcp.{
  AddressWithPrefix, Config, Stack, State, never, ended, done, panics, blocks, same, receive_done,
  cancel_and_wait, lose, gain, acquired, Child, Outcome, running, and_then, remove,
}

module _ {A D N : Type 0} (stack : Stack A D N) where
  -- How the handler ends where `f` does not run, and its end is not in the channel.
  abbrev pub stranded : Child → Outcome (State A D N)
  stranded never = panics
  stranded running = blocks
  stranded ended = blocks

  cancel_and_wait-stranded :
      (s : State A D N) (c : Child)
      → c ≢ running
      → s.f_done ≡ 0
      → cancel_and_wait stack c s ≡ stranded c
  unfolding cancel_and_wait receive_done
  cancel_and_wait-stranded s never h quiet = refl
  cancel_and_wait-stranded s running h quiet = absurd (h refl)
  cancel_and_wait-stranded s ended h quiet = rw quiet refl

  -- Where the stack refuses the new address, the handler only logs that, and the next change of
  -- the lease ends it: before `f` has ever run, in a call of nil, which is a panic, and once `f` has
  -- ended, in a receive that waits for a second end of it, which never comes. `f` does not run, and
  -- its end is not in the channel; both events are changes of the address.
  pub acquired-refused :
      (s : State A D N) (none_yet a b : AddressWithPrefix A) (c d : Config A)
      → stack.unspecified none_yet.address ≡ true
      → stack.unspecified a.address ≡ false
      → same stack none_yet a ≡ false
      → same stack a b ≡ false
      → stack.add_protocol_address s.network a ≡ none
      → s.f_done ≡ 0
      → s.child ≢ running
      → (acquired stack s none_yet a c ≡ done s) × (acquired stack s a b d ≡ stranded s.child)
  unfolding acquired lose gain
  acquired-refused s none_yet a b c d empty given new changed refused quiet idle = (
    rw (new, empty, given, refused) refl,
    rw (changed, given, cancel_and_wait-stranded s s.child idle quiet) (ends s.child),
  )
    where
      ends :
          (x : Child)
          → and_then
              (and_then (stranded x) λ s'. done (remove stack s' a.address))
              (λ s'. done (gain stack s' b d))
            ≡ stranded x
      ends never = refl
      ends running = refl
      ends ended = refl
