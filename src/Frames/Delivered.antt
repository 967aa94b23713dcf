-- ===== src/Frames/Delivered.antt =====
-- trusted_applet/net.go: what the network stack is given of the frames that come in.
use mathlib.Core.List.{append_assoc}
use native.Mathlib.Decide.{dec_le}
use armored_witness_applet.Prelude.{
  ℕ, ◌+◌, ◌-◌, ◌*◌, ◌≤◌, ◌<◌, ◌≡◌, refl, sym, ap, ◌∙◌, List, [], ◌∷◌, ◌++◌, arith, ltb, false,
  length, take, drop, get_uint, length-append, take-length-append, drop-length-append,
  take-append_drop, take-all, length-take, length-drop,
}
use armored_witness_applet.Frames.{Inbound, rx}
use armored_witness_applet.Frames.Draining.{rx_all}

-- An Ethernet frame: both addresses, the two bytes of the protocol number, and the payload.
abbrev pub ethernet : List ℕ → ℕ → ℕ → List ℕ → List ℕ
ethernet addresses hi lo payload = addresses ++ (hi ∷ lo ∷ payload)

-- What the stack is given of some frames: nothing of those that are shorter than a header, and of
-- each other one its protocol number, its header and its payload.
pub data Delivers : List (List ℕ) → List Inbound → Type 0 where
  nothing : Delivers [] []
  runt :
      (f : List ℕ) {fs : List (List ℕ)} {is : List Inbound}
      → length f < 14
      → Delivers fs is
      → Delivers (f ∷ fs) is
  whole :
      (f addresses : List ℕ) (hi lo : ℕ) (payload : List ℕ) {fs : List (List ℕ)} {is : List Inbound}
      → length addresses ≡ 12
      → f ≡ ethernet addresses hi lo payload
      → Delivers fs is
      → Delivers (f ∷ fs) (
          record {
            protocol = hi * 256 + lo;
            link_header = addresses ++ (hi ∷ lo ∷ []);
            payload = payload;
          }
          ∷ is)

-- the bytes of the protocol number
second_part :
    (l : List ℕ) → 2 ≤ length l → (hi lo : ℕ) × (payload : List ℕ) × (l ≡ hi ∷ lo ∷ payload)
second_part [] h = absurd (omega arith)
second_part (x ∷ []) h = absurd (omega arith)
second_part (x ∷ y ∷ l) h = (x, y, l, refl)

module _ {N : Type 0} (inject : N → Inbound → N) where
  -- The packets, injected in order.
  unfoldable pub inject_all : N → List Inbound → N
  inject_all net [] = net
  inject_all net (i ∷ is) = inject_all (inject net i) is

  rx-runt : (net : N) (f : List ℕ) → length f < 14 → rx inject net f ≡ net
  unfolding rx
  rx-runt net f h = ground arith

  rx-ethernet :
      (net : N) (addresses : List ℕ) (hi lo : ℕ) (payload : List ℕ)
      → length addresses ≡ 12
      → rx inject net (ethernet addresses hi lo payload)
        ≡ inject net (record {
          protocol = hi * 256 + lo;
          link_header = addresses ++ (hi ∷ lo ∷ []);
          payload = payload;
        })
  unfolding rx get_uint
  rx-ethernet net addresses hi lo payload size =
      let h : List ℕ = addresses ++ (hi ∷ lo ∷ []) in
      let frame : ethernet addresses hi lo payload ≡ h ++ payload =
        sym (append_assoc addresses (hi ∷ lo ∷ []) payload) in
      let fourteen : 14 ≡ length h = omega (arith, size, length-append addresses (hi ∷ lo ∷ [])) in
      let long : ltb (length (ethernet addresses hi lo payload)) 14 ≡ false =
        ground (arith, size, length-append addresses (hi ∷ lo ∷ payload)) in
      let head : take 14 (ethernet addresses hi lo payload) ≡ h =
        ap (take 14) frame ∙ take-length-append 14 h payload fourteen in
      let body : drop 14 (ethernet addresses hi lo payload) ≡ payload =
        ap (drop 14) frame ∙ drop-length-append 14 h payload fourteen in
      let number : get_uint 0 (take 2 (drop 12 (ethernet addresses hi lo payload)))
          ≡ hi * 256 + lo =
        ap (λ l. get_uint 0 (take 2 l))
          (drop-length-append 12 addresses (hi ∷ lo ∷ payload) (sym size))
        ∙ omega arith in
      rw (long, head, body, number) refl

  -- What `rx` passes on of a run of frames.
  pub rx_all-Delivers :
      (net : N) (fs : List (List ℕ))
      → (is : List Inbound) × Delivers fs is × (rx_all inject net fs ≡ inject_all net is)
  unfolding rx_all inject_all
  rx_all-Delivers net [] = ([], nothing, refl)
  rx_all-Delivers net (f ∷ fs) = elim (dec_le 14 (length f)) [
    | no short ↦
        (let (is, delivers, same) = rx_all-Delivers net fs in
          (
            is,
            runt f (omega (arith, short)) delivers,
            ap (λ n. rx_all inject n fs) (rx-runt net f (omega (arith, short))) ∙ same,
          ))
    | yes long ↦
        (let (hi, lo, payload, parts) =
            second_part (drop 12 f) (omega (arith, long, length-drop 12 f)) in
          let size : length (take 12 f) ≡ 12 = omega (arith, long, length-take 12 f) in
          let frame : f ≡ ethernet (take 12 f) hi lo payload =
            sym (
              take-append_drop 12 (length f - 12) (length f) f (omega (arith, long))
              ∙ take-all (length f) f (omega arith))
            ∙ ap (λ l. take 12 f ++ l)
                (take-all (length f - 12) (drop 12 f) (omega (arith, length-drop 12 f)) ∙ parts) in
          let (is, delivers, same) =
            rx_all-Delivers
              (inject net (record {
                protocol = hi * 256 + lo;
                link_header = take 12 f ++ (hi ∷ lo ∷ []);
                payload = payload;
              }))
              fs in
          (
            record {
              protocol = hi * 256 + lo;
              link_header = take 12 f ++ (hi ∷ lo ∷ []);
              payload = payload;
            }
                ∷ is,
            whole f (take 12 f) hi lo payload size frame delivers,
            ap (λ n. rx_all inject n fs)
                  (ap (rx inject net) frame ∙ rx-ethernet net (take 12 f) hi lo payload size)
                ∙ same,
          ))
  ]
