-- ===== src/Frames.antt =====
-- trusted_applet/net.go and trusted_applet/handler.go: Ethernet frames between the operating system
-- and the network stack.
pub mod Laws
pub mod Draining
pub mod Delivered
pub mod Waking
use armored_witness_applet.Prelude.{
  ℕ, zero, suc, ◌/◌, ◌%◌, Bool, true, false, ◌||◌, List, [], ◌∷◌, ◌++◌, Option, none, some, ltb,
  leb, ◌==◌, if◌then◌else◌, length, take, drop, get_uint, replicate,
}
use armored_witness_applet.Result.{Result, ok, err, panic, out_of_fuel, ◌>>=◌, registration_failed}

-- What InjectInbound is given.
pub record Inbound : Type 0 where
  pub protocol : ℕ
  pub link_header : List ℕ
  pub payload : List ℕ

-- A packet that the stack sends, with the slices that AsSlices gives.
pub record Outbound : Type 0 where
  pub protocol : ℕ
  pub remote : List ℕ
  pub slices : List (List ℕ)

-- `binary.BigEndian.PutUint16`
unfoldable pub put_uint16 : ℕ → List ℕ
put_uint16 n = (n / 256 % 256) ∷ (n % 256) ∷ []

unfoldable pub concat : List (List ℕ) → List ℕ
concat [] = []
concat (xs ∷ xss) = xs ++ concat xss

-- `rx`: `inject` is InjectInbound of the link, and `net` the state of the network stack.
module _ {N : Type 0} (inject : N → Inbound → N) where
  unfoldable pub rx : N → List ℕ → N
  rx net buf =
      if ltb (length buf) 14
      then net
      else inject net (record {
        protocol = get_uint 0 (take 2 (drop 12 buf));
        link_header = take 14 buf;
        payload = drop 14 buf;
      })

-- `tx`: what `Link.Read` has for it is the packet, and `mac` is that of the interface.
unfoldable pub tx : List ℕ → Option Outbound → List ℕ
tx mac none = []
tx mac (some pkt) = pkt.remote ++ (mac ++ (put_uint16 pkt.protocol ++ concat pkt.slices))

-- `WriteNotify`: `link` is Read of the link, and `send` the system call Write of TX.
module _ {S N : Type 0} (link : N → Option Outbound × N) (send : S → List ℕ → S) where
  unfoldable pub write_notify : List ℕ → S → N → S × N
  write_notify mac s net = let (pkt, net') = link net in (send s (tx mac pkt), net')

-- The system call Read of RX: it is given the buffer, and leaves what it holds afterwards and the
-- number of bytes read. `mtu` is that of the Ethernet driver.
module _ {S N : Type 0} (receive : S → List ℕ → ℕ × List ℕ × S) (inject : N → Inbound → N)
    (mtu : ℕ) where
  -- the number of bytes that `rxFromEth` returns
  unfoldable pub accepted : ℕ → ℕ
  accepted n = if (n == 0) || ltb mtu n then 0 else n

  unfoldable pub rx_from_eth : S → List ℕ → ℕ × List ℕ × S
  rx_from_eth s buf = let (n, buf', s') = receive s buf in (accepted n, buf', s')

  -- `out[0:n]`, which panics past the end of the buffer
  unfoldable pub slice_to : ℕ → List ℕ → Result (List ℕ)
  slice_to n out = if leb n (length out) then ok (take n out) else panic

  -- a round of the loop of `eventHandler` on what was read, and the rounds behind it
  unfoldable pub round :
      (S → N → List ℕ → Result (S × N × List ℕ)) → N → ℕ × List ℕ × S → Result (S × N × List ℕ)
  round others net (n, out, s) = elim (ltb 0 n) [
    | false ↦ ok (s, net, out)
    | true ↦ elim (slice_to n out) [
      | ok frame ↦ others s (rx inject net frame) out
      | err e ↦ panic
      | panic ↦ panic
      | out_of_fuel ↦ out_of_fuel
    ]
  ]

  -- The loop that a wake-up runs, over frames and the buffer `out`.
  unfoldable pub drain : ℕ → S → N → List ℕ → Result (S × N × List ℕ)
  drain zero s net out = out_of_fuel
  drain (suc fuel) s net out = round (drain fuel) net (rx_from_eth s out)

  -- The rounds of the loop of `eventHandler`: `rearm` is the system call Write of FIQ, made once the
  -- handler sleeps, and each wake-up is what happens to the system until then.
  unfoldable pub handle : (S → S) → ℕ → List (S → S) → S → N → List ℕ → Result (S × N × List ℕ)
  handle rearm fuel [] s net out = ok (s, net, out)
  handle rearm fuel (wake ∷ wakes) s net out =
      drain fuel (wake (rearm s)) net out >>= λ r. handle rearm fuel wakes r.0 r.1 r.2

  -- `eventHandler`, up to the wake-ups that are listed; it does not return
  unfoldable pub event_handler :
      (S → Bool × S) → (S → S) → ℕ → List (S → S) → S → N → Result (S × N × List ℕ)
  event_handler register rearm fuel wakes s net =
      let (registered, s') = register s in
      if registered
      then handle rearm fuel wakes s' net (replicate mtu 0)
      else err registration_failed
