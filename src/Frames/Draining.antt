-- ===== src/Frames/Draining.antt =====
-- trusted_applet/handler.go: the loop of eventHandler over the frames that are waiting.
use mathlib.Core.Path.{ap₂}
use armored_witness_applet.Prelude.{
  ℕ, zero, suc, ◌≤◌, ◌<◌, ◌≡◌, refl, ap, ◌∙◌, List, [], ◌∷◌, ◌++◌, arith, true, ltb, leb, length,
  take, drop, length-append, take-length-append, length-drop,
}
use armored_witness_applet.Result.{Result, ok}
use armored_witness_applet.Frames.{Inbound, rx, accepted, rx_from_eth, slice_to, round, drain}

-- What the operating system promises of the system call: the frames that are waiting are read one
-- by one, each into the front of the buffer, and none is as good as a frame of no bytes.
pub record IsQueue {S : Type 0} (receive : S → List ℕ → ℕ × List ℕ × S)
    (pending : S → List (List ℕ)) : Type 0 where
  pub idle :
      (s : S) (out : List ℕ)
      → pending s ≡ []
      → ((receive s out).0 ≡ 0) × (pending (receive s out).2 ≡ [])
  pub buffer : (s : S) (out : List ℕ) → length (receive s out).1 ≡ length out
  pub next :
      (s : S) (out f : List ℕ) (fs : List (List ℕ))
      → pending s ≡ f ∷ fs
      → length f ≤ length out
      → ((receive s out).0 ≡ length f)
        × ((receive s out).1 ≡ f ++ drop (length f) out)
        × (pending (receive s out).2 ≡ fs)

-- Frames that have bytes, and fit in the buffer.
abbrev pub AllFit : ℕ → List (List ℕ) → Type 0
AllFit mtu [] = Unit
AllFit mtu (f ∷ fs) = (0 < length f) × (length f ≤ mtu) × AllFit mtu fs

module _ {N : Type 0} (inject : N → Inbound → N) where
  -- Each frame given to `rx`, in order.
  unfoldable pub rx_all : N → List (List ℕ) → N
  rx_all net [] = net
  rx_all net (f ∷ fs) = rx_all (rx inject net f) fs

module _ {S N : Type 0} {receive : S → List ℕ → ℕ × List ℕ × S} {pending : S → List (List ℕ)}
    (queue : IsQueue receive pending) (inject : N → Inbound → N) (mtu : ℕ) where
  accepted-zero : (n : ℕ) → n ≡ 0 → accepted receive inject mtu n ≡ 0
  unfolding accepted
  accepted-zero n e = ground arith

  accepted-fit : (n : ℕ) → 0 < n → n ≤ mtu → accepted receive inject mtu n ≡ n
  unfolding accepted
  accepted-fit n some fit = ground arith

  abbrev Rounds : Type 0
  Rounds = S → N → List ℕ → Result (S × N × List ℕ)

  round-idle :
      (others : Rounds) (net : N) (out : List ℕ) (s : S)
      → round receive inject mtu others net (0, out, s) ≡ ok (s, net, out)
  unfolding round
  round-idle others net out s = refl

  round-frame :
      (others : Rounds) (net : N) (f more : List ℕ) (s : S)
      → 0 < length f
      → round receive inject mtu others net (length f, f ++ more, s)
        ≡ others s (rx inject net f) (f ++ more)
  unfolding round slice_to
  round-frame others net f more s some =
      let long : leb (length f) (length (f ++ more)) ≡ true =
        ground (arith, length-append f more) in
      let frame : take (length f) (f ++ more) ≡ f = take-length-append (length f) f more refl in
      let go : ltb 0 (length f) ≡ true = ground arith in rw (go, long, frame, round, slice_to) refl

  drain-idle :
      (fuel : ℕ) (s : S) (net : N) (out : List ℕ)
      → pending s ≡ []
      → (s' : S) × (out' : List ℕ) × (drain receive inject mtu (suc fuel) s net out
          ≡ ok (s', net, out'))
        × (pending s' ≡ [])
        × (length out' ≡ length out)
  unfolding drain rx_from_eth
  drain-idle fuel s net out empty =
      let (none, left) = queue.idle s out empty in
      let r = receive s out in
      let zeroed : accepted receive inject mtu r.0 ≡ 0 = accepted-zero r.0 none in
      (
        r.2,
        r.1,
        ap (λ n. round receive inject mtu (drain receive inject mtu fuel) net (n, r.1, r.2)) zeroed
            ∙ round-idle (drain receive inject mtu fuel) net r.1 r.2,
        left,
        queue.buffer s out,
      )

  drain-next :
      (fuel : ℕ) (s : S) (net : N) (out f : List ℕ) (fs : List (List ℕ))
      → pending s ≡ f ∷ fs
      → 0 < length f
      → length f ≤ mtu
      → length out ≡ mtu
      → drain receive inject mtu (suc fuel) s net out
        ≡ drain receive inject mtu fuel
            (receive s out).2
            (rx inject net f)
            (f ++ drop (length f) out)
  unfolding drain rx_from_eth
  drain-next fuel s net out f fs waiting some fit size =
      let (count, left, rest) = queue.next s out f fs waiting (omega arith) in
      let r = receive s out in
      let others : Rounds = drain receive inject mtu fuel in
      let good : accepted receive inject mtu r.0 ≡ length f =
        ap (accepted receive inject mtu) count ∙ accepted-fit (length f) some fit in
      ap₂ (λ n l. round receive inject mtu others net (n, l, r.2)) good left
      ∙ round-frame others net f (drop (length f) out) r.2 some

  -- The loop that a wake-up runs passes each waiting frame to the network stack, in order and
  -- whole, and ends when none is left; no slice of the buffer is out of range. The frames have
  -- bytes, and are no longer than the buffer, which has the size of the MTU; the system call reads them one by one. The fuel is more than
  -- the frames that wait.
  pub drain_lem :
      (fuel : ℕ) (s : S) (net : N) (out : List ℕ) (fs : List (List ℕ))
      → pending s ≡ fs
      → AllFit mtu fs
      → length out ≡ mtu
      → length fs < fuel
      → (s' : S) × (out' : List ℕ) × (drain receive inject mtu fuel s net out
          ≡ ok (s', rx_all inject net fs, out'))
        × (pending s' ≡ [])
        × (length out' ≡ mtu)
  unfolding rx_all
  drain_lem zero s net out fs waiting fit size enough = absurd (omega arith)
  drain_lem (suc fuel) s net out [] waiting fit size enough =
      let (s', out', ran, done, kept) = drain-idle fuel s net out waiting in
      (s', out', ran, done, omega (arith, kept, size))
  drain_lem (suc fuel) s net out (f ∷ fs) waiting fit size enough =
      let (count, left, rest) = queue.next s out f fs waiting (omega (arith, fit)) in
      let kept : length (f ++ drop (length f) out) ≡ mtu =
        omega (arith, fit, length-append f (drop (length f) out), length-drop (length f) out) in
      let (s', out', ran, done, long) =
        drain_lem fuel (receive s out).2 (rx inject net f) (f ++ drop (length f) out) fs rest fit.2
          kept (omega arith) in
      (s', out', drain-next fuel s net out f fs waiting fit.0 fit.1 size ∙ ran, done, long)
