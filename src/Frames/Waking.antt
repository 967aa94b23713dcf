-- ===== src/Frames/Waking.antt =====
-- trusted_applet/handler.go: eventHandler over its wake-ups.
use armored_witness_applet.Prelude.{
  ℕ, ◌<◌, ◌≡◌, refl, sym, ap, ◌∙◌, List, [], ◌∷◌, ◌++◌, Option, some, Bool, true, length, replicate,
  length-replicate, ◌≤◌,
}
use armored_witness_applet.Result.{ok, ◌>>=◌}
use armored_witness_applet.Frames.{
  Inbound, Outbound, rx, tx, drain, handle, event_handler, write_notify, put_uint16, concat,
}
use armored_witness_applet.Frames.Laws.{rx-tx, tx-positive}
use armored_witness_applet.Frames.Delivered.{Delivers, inject_all, rx_all-Delivers}
use armored_witness_applet.Frames.Draining.{IsQueue, AllFit, rx_all, drain_lem}

-- The frames that come in before each wake-up, to the end of the queue; each fits in the buffer, and
-- they are fewer than the fuel.
pub data Arrive {S : Type 0} (pending : S → List (List ℕ)) (rearm : S → S) (mtu fuel : ℕ)
    : List (S → S) → List (List ℕ) → Type 0 where
  none : Arrive pending rearm mtu fuel [] []
  woken :
      (wake : S → S) (fs : List (List ℕ)) {wakes : List (S → S)} {rest : List (List ℕ)}
      → ((s : S) → pending (wake (rearm s)) ≡ pending s ++ fs)
      → AllFit mtu fs
      → length fs < fuel
      → Arrive pending rearm mtu fuel wakes rest
      → Arrive pending rearm mtu fuel (wake ∷ wakes) (fs ++ rest)

module _ {N : Type 0} (inject : N → Inbound → N) where
  rx_all-append :
      (net : N) (fs gs : List (List ℕ))
      → rx_all inject net (fs ++ gs) ≡ rx_all inject (rx_all inject net fs) gs
  unfolding rx_all
  rx_all-append net [] gs = refl
  rx_all-append net (f ∷ fs) gs = rx_all-append (rx inject net f) fs gs

module _ {S N : Type 0} {receive : S → List ℕ → ℕ × List ℕ × S} {pending : S → List (List ℕ)}
    (queue : IsQueue receive pending) (inject : N → Inbound → N) (mtu : ℕ) (rearm : S → S)
    (fuel : ℕ) where
  handle_lem :
      (s : S) (net : N) (out : List ℕ)
      → pending s ≡ []
      → length out ≡ mtu
      → {wakes : List (S → S)} {fs : List (List ℕ)} → Arrive pending rearm mtu fuel wakes fs
      → (s' : S) × (out' : List ℕ) × (handle receive inject mtu rearm fuel wakes s net out
          ≡ ok (s', rx_all inject net fs, out'))
        × (pending s' ≡ [])
  unfolding handle rx_all
  handle_lem s net out empty size none = (s, out, refl, empty)
  handle_lem s net out empty size (woken wake fs {wakes = wakes} {rest = rest} comes fit few more) =
      let waiting : pending (wake (rearm s)) ≡ fs = comes s ∙ ap (λ l. l ++ fs) empty in
      let (s₁, out₁, ran, done, long) =
        drain_lem queue inject mtu fuel (wake (rearm s)) net out fs waiting fit size few in
      let (s', out', rounds, left) = handle_lem s₁ (rx_all inject net fs) out₁ done long more in
      (
        s',
        out',
        ap (λ r. r >>= λ q. handle receive inject mtu rearm fuel wakes q.0 q.1 q.2) ran
            ∙ rounds
            ∙ ap (λ n. ok (s', n, out')) (sym (rx_all-append inject net fs rest)),
        left,
      )

  -- Once it is registered, eventHandler passes the frames that come in before a wake-up to the
  -- network stack, in order: of each frame of 14 bytes or more, its protocol number, its header and
  -- its payload, and nothing of a shorter one. It panics at none of the wake-ups, and no frame waits
  -- any longer behind the last of them. Each frame has a byte or more and fits in the buffer, and the
  -- system call reads them one by one.
  pub event_handler_lem :
      (register : S → Bool × S) (s : S) (net : N)
      → (register s).0 ≡ true
      → pending (register s).1 ≡ []
      → {wakes : List (S → S)} {fs : List (List ℕ)} → Arrive pending rearm mtu fuel wakes fs
      → (s' : S) × (out' : List ℕ) × (is : List Inbound) × Delivers fs is
        × (event_handler receive inject mtu register rearm fuel wakes s net
            ≡ ok (s', inject_all inject net is, out'))
        × (pending s' ≡ [])
  unfolding event_handler
  event_handler_lem register s net registered empty {wakes = wakes} {fs = fs} more =
      let (s', out', ran, left) =
        handle_lem (register s).1 net (replicate mtu 0) empty (length-replicate mtu 0) more in
      let (is, delivers, same) = rx_all-Delivers inject net fs in
      (
        s',
        out',
        is,
        delivers,
        rw (registered, event_handler) (ran ∙ ap (λ n. ok (s', n, out')) same),
        left,
      )

module _ {S N : Type 0} {receive : S → List ℕ → ℕ × List ℕ × S} {pending : S → List (List ℕ)}
    (queue : IsQueue receive pending) (inject : N → Inbound → N) (mtu : ℕ) where
  -- Over a wire, a frame that WriteNotify sends of a packet is passed on by the other end's loop under
  -- the protocol of the packet, with its payload whole and its addresses in the header.
  pub write_notify-drain :
      {M : Type 0}
      → (link : M → Option Outbound × M) (send : S → List ℕ → S) (mac : List ℕ) (pkt : Outbound)
        (fuel : ℕ) (s : S) (sender : M) (net : N) (out : List ℕ)
      → ((s : S) (b : List ℕ) → pending (send s b) ≡ pending s ++ (b ∷ []))
      → pending s ≡ []
      → (link sender).0 ≡ some pkt
      → length mac ≡ 6
      → length pkt.remote ≡ 6
      → pkt.protocol < 65536
      → length (tx mac (some pkt)) ≤ mtu
      → length out ≡ mtu
      → 1 < fuel
      → (s' : S) × (out' : List ℕ) × (drain receive inject mtu fuel
            (write_notify link send mac s sender).0
            net
            out
          ≡ ok (
            s',
            inject net (record {
              protocol = pkt.protocol;
              link_header = pkt.remote ++ (mac ++ put_uint16 pkt.protocol);
              payload = concat pkt.slices;
            }),
            out',
          ))
        × (pending s' ≡ [])
  unfolding write_notify rx_all
  write_notify-drain link send mac pkt fuel s sender net out wire empty read m r small fits size
        enough =
      let frame : List ℕ = tx mac (some pkt) in
      let waiting : pending (write_notify link send mac s sender).0 ≡ frame ∷ [] =
        wire s (tx mac (link sender).0)
        ∙ ap (λ l. l ++ (tx mac (link sender).0 ∷ [])) empty
        ∙ ap (λ o. tx mac o ∷ []) read in
      let (s', out', ran, left, long) =
        drain_lem queue inject mtu fuel (write_notify link send mac s sender).0 net out (frame ∷ [])
          waiting (tx-positive mac pkt m r, fits, tt) size enough in
      (s', out', ran ∙ ap (λ n. ok (s', n, out')) (rx-tx inject net mac pkt m r small), left)
