-- ===== src/Dhcp/Leases.antt =====
-- trusted_applet/net.go: runs of `runDHCP` in which each new address is added to the stack.
use mathlib.Core.Path.{subst, ap₂}
use armored_witness_applet.Prelude.{
  suc, ◌≡◌, refl, sym, ap, ◌∙◌, Bool, true, false, Option, none, some, ◌⊎◌, inl, inr, if◌then◌else◌,
  Bool-cases, ==_iff, ◌&&◌, ◌==◌,
}
use armored_witness_applet.Dhcp.{
  AddressWithPrefix, Config, Stack, State, never, running, ended, done, same, route_table,
  configure_net_from_dhcp, exit_child, receive_done, cancel_and_wait, remove, lose, gain, acquired,
}

done-injective : {S : Type 0} {s t : S} → done s ≡ done t → s ≡ t
done-injective e = cc

-- The lease that the client holds.
abbrev pub Lease : Type 0 → Type 0
Lease A = Option (AddressWithPrefix A × Config A)

module _ {A D N : Type 0} (stack : Stack A D N) where
  -- The client passes the address that it holds as the old one, and else one that is unspecified.
  abbrev pub IsHeld : Lease A → AddressWithPrefix A → Type 0
  IsHeld none old = stack.unspecified old.address ≡ true
  IsHeld (some (a, cfg)) old = a ≡ old

  -- what it holds next
  abbrev pub next_lease : AddressWithPrefix A → Config A → Lease A
  next_lease new cfg = if stack.unspecified new.address then none else some (new, cfg)

  -- The stack takes the new address, in whatever state it is.
  abbrev pub Takes : AddressWithPrefix A → Type 0
  Takes new = (n : N) → (n' : N) × (stack.add_protocol_address n new ≡ some n')

  -- The states that `runDHCP` comes to, with the lease that is held there. The events are those of
  -- the client, and the end of the goroutine of `f`.
  pub data Reaches : State A D N → Lease A → Type 0 where
    start : (s : State A D N) → s.child ≡ never → s.f_done ≡ 0 → Reaches s none
    event :
        (s s' : State A D N) (held : Lease A) (old new : AddressWithPrefix A) (cfg : Config A)
        → Reaches s held
        → IsHeld held old
        → acquired stack s old new cfg ≡ done s'
        → Reaches s' (next_lease new cfg)
    child_exits :
        (s : State A D N) (held : Lease A)
        → Reaches s held
        → s.child ≡ running
        → Reaches (exit_child stack s) held

  -- Without a lease, `f` does not run, and the channel is empty. With one, `f` runs, or its end is
  -- told in the channel, and the routes are those of the lease.
  abbrev pub Holds : State A D N → Lease A → Type 0
  Holds s none = (¬ (s.child ≡ running)) × (s.f_done ≡ 0)
  Holds s (some (a, cfg)) =
      ((s.child ≡ running) × (s.f_done ≡ 0) ⊎ (s.child ≡ ended) × (s.f_done ≡ 1))
      × (s.routes ≡ route_table stack a cfg)
      × (stack.unspecified a.address ≡ false)

  -- The comparison of two addresses is right.
  abbrev pub SameSound : Type 0
  SameSound = (a b : A) → stack.same_address a b ≡ true → a ≡ b

  module _ (sound : SameSound) where
    same-≡ : (a b : AddressWithPrefix A) → same stack a b ≡ true → a ≡ b
    unfolding same
    same-≡ a b h =
        let (x, y) =
          both (stack.same_address a.address b.address) (a.prefix_len == b.prefix_len) h in
        ap₂ (λ p q. record { address = p; prefix_len = q }) (sound a.address b.address x)
          ((==_iff a.prefix_len b.prefix_len).0 y)
      where
        both : (x y : Bool) → (x && y) ≡ true → (x ≡ true) × (y ≡ true)
        both true y h = (refl, h)
        both false y h = absurd (cc)

    cancel-Idle :
        (s : State A D N)
        → (s.child ≡ running) × (s.f_done ≡ 0) ⊎ (s.child ≡ ended) × (s.f_done ≡ 1)
        → (s' : State A D N) × (cancel_and_wait stack s.child s ≡ done s') × Holds s' none
    unfolding cancel_and_wait receive_done exit_child
    cancel-Idle s (inl (runs, quiet)) = (record s { child = ended }, rw runs refl, (λ e. cc, quiet))
    cancel-Idle s (inr (over, told)) =
        (record s { f_done = 0 }, rw (over, told) refl, (λ e. cc, refl))

    remove-Idle : (s : State A D N) (a : A) → Holds s none → Holds (remove stack s a) none
    unfolding remove
    remove-Idle s a h =
        elim (stack.remove_address s.network a)
          as (λ r.
            Holds (elim r as (λ _. State A D N) [ none ↦ s | some n ↦ record s { network = n } ])
              none) [ none ↦ h | some n ↦ h ]

    -- the state once there is no lease
    lose-Idle :
        (s : State A D N) (held : Lease A) (old : AddressWithPrefix A)
        → Holds s held
        → IsHeld held old
        → (s' : State A D N) × (lose stack s old ≡ done s') × Holds s' none
    unfolding lose
    lose-Idle s none old h e = (s, rw e refl, h)
    lose-Idle s (some (a, cfg)) old (alive, routes, given) e =
        let (s', waited, idle) = cancel-Idle s alive in
        let known : stack.unspecified old.address ≡ false =
          ap (λ b. stack.unspecified b.address) (sym e) ∙ given in
        (remove stack s' old.address, rw (known, waited) refl, remove-Idle s' old.address idle)

    gain-Holds :
        (s : State A D N) (new : AddressWithPrefix A) (cfg : Config A)
        → Holds s none
        → Takes new
        → Holds (gain stack s new cfg) (next_lease new cfg)
    unfolding gain configure_net_from_dhcp
    gain-Holds s new cfg (idle, quiet) takes =
        let (n, took) = takes s.network in
        elim (Bool-cases (stack.unspecified new.address)) [
          | inl e ↦ rw e (idle, quiet)
          | inr e ↦ rw (e, took) (inl (refl, quiet), refl, e)
        ]

    renew-Holds :
        (s : State A D N) (held : Lease A) (new : AddressWithPrefix A) (cfg : Config A)
        → Holds s held
        → IsHeld held new
        → Holds (configure_net_from_dhcp stack s new cfg) (next_lease new cfg)
    unfolding configure_net_from_dhcp
    renew-Holds s none new cfg h e = rw e h
    renew-Holds s (some (a, c)) new cfg (alive, routes, given) e =
        let known : stack.unspecified new.address ≡ false =
          ap (λ b. stack.unspecified b.address) (sym e) ∙ given in
        rw known (alive, refl, known)

    IsHeld-≡ :
        (held : Lease A) (old new : AddressWithPrefix A)
        → old ≡ new
        → IsHeld held old
        → IsHeld held new
    IsHeld-≡ held old new e h = subst (IsHeld held) e h

    -- Each event is handled to its end: no call of nil, and no wait for an end of `f` that does
    -- not come. The state again goes with the lease.
    acquired-Holds :
        (s : State A D N) (held : Lease A) (old new : AddressWithPrefix A) (cfg : Config A)
        → Holds s held
        → IsHeld held old
        → Takes new
        → (s' : State A D N) × (acquired stack s old new cfg ≡ done s')
          × Holds s' (next_lease new cfg)
    unfolding acquired
    acquired-Holds s held old new cfg h e takes = elim (Bool-cases (same stack old new)) [
      | inl eq ↦
          let renewed = IsHeld-≡ held old new (same-≡ old new eq) e in
          (
            configure_net_from_dhcp stack s new cfg,
            rw eq refl,
            renew-Holds s held new cfg h renewed,
          )
      | inr ne ↦
          let (s', lost, idle) = lose-Idle s held old h e in
          (gain stack s' new cfg, rw (ne, lost) refl, gain-Holds s' new cfg idle takes)
    ]

    exit-Holds :
        (s : State A D N) (held : Lease A)
        → Holds s held
        → s.child ≡ running
        → Holds (exit_child stack s) held
    unfolding exit_child
    exit-Holds s none (idle, quiet) runs = absurd (idle runs)
    exit-Holds s (some (a, cfg)) (inl (runs, quiet), routes, given) r =
        (inr (refl, ap suc quiet), routes, given)
    exit-Holds s (some (a, cfg)) (inr (over, told), routes, given) r = absurd (cc)

  module _ (sound : SameSound) (takes : (a : AddressWithPrefix A) → Takes a) where
    Reaches-Holds : (s : State A D N) (held : Lease A) → Reaches s held → Holds s held
    Reaches-Holds _ _ (start s never_yet quiet) = (λ e. cc, quiet)
    Reaches-Holds _ _ (event s s' held old new cfg r e ran) =
        let (t, ran', h) =
          acquired-Holds sound s held old new cfg (Reaches-Holds s held r) e (takes new) in
        subst (λ x. Holds x (next_lease new cfg)) (done-injective (sym ran' ∙ ran)) h
    Reaches-Holds _ _ (child_exits s held r runs) =
        exit-Holds sound s held (Reaches-Holds s held r) runs

    -- Wherever `runDHCP` comes to: without a lease `f` does not run, and nothing is in the
    -- channel; with one, `f` runs, or its one end is told in the channel, which has room for it, and
    -- the route table is that of the lease. From there, it handles an event to its end: it calls
    -- no `cancelChild` that is nil, and each wait for the end of `f` is over. The stack takes
    -- each address, and tells addresses apart; the client passes the address that it holds as the
    -- old one.
    pub acquired_ends :
        (s : State A D N) (held : Lease A) (old new : AddressWithPrefix A) (cfg : Config A)
        → Reaches s held
        → IsHeld held old
        → Holds s held × ((s' : State A D N) × (acquired stack s old new cfg ≡ done s'))
    acquired_ends s held old new cfg r e =
        let h = Reaches-Holds s held r in
        let (s', ran, _) = acquired-Holds sound s held old new cfg h e (takes new) in (h, (s', ran))
