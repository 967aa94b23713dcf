-- ===== src/Frames/Laws.antt =====
-- trusted_applet/net.go: a frame that `tx` builds, given to `rx`.
use mathlib.Core.List.{append_assoc}
use armored_witness_applet.Prelude.{
  ℕ, ◌<◌, ◌≡◌, refl, sym, ap, ◌∙◌, List, ◌++◌, some, arith, ltb, false, length, take, drop,
  get_uint, length-append, take-length-append, drop-length-append,
}
use armored_witness_applet.Frames.{Inbound, Outbound, put_uint16, concat, rx, tx}

get-put_uint16 : (n : ℕ) → n < 65536 → get_uint 0 (put_uint16 n) ≡ n
unfolding get_uint put_uint16
get-put_uint16 n h = omega arith

-- The 14 bytes of the header that `tx` builds.
abbrev pub header : List ℕ → Outbound → List ℕ
header mac pkt = pkt.remote ++ (mac ++ put_uint16 pkt.protocol)

tx-header :
    (mac : List ℕ) (pkt : Outbound) → tx mac (some pkt) ≡ header mac pkt ++ concat pkt.slices
unfolding tx
tx-header mac pkt = simp append_assoc

length-header :
    (mac : List ℕ) (pkt : Outbound)
    → length mac ≡ 6
    → length pkt.remote ≡ 6
    → length (header mac pkt) ≡ 14
unfolding put_uint16
length-header mac pkt m r = omega (
  arith,
  length-append pkt.remote (mac ++ put_uint16 pkt.protocol),
  length-append mac (put_uint16 pkt.protocol),
)

header-append :
    (mac : List ℕ) (pkt : Outbound)
    → header mac pkt ++ concat pkt.slices
      ≡ (pkt.remote ++ mac) ++ (put_uint16 pkt.protocol ++ concat pkt.slices)
header-append mac pkt = simp append_assoc

length-put_uint16 : (n : ℕ) → length (put_uint16 n) ≡ 2
unfolding put_uint16
length-put_uint16 n = refl

pub tx-positive :
    (mac : List ℕ) (pkt : Outbound)
    → length mac ≡ 6
    → length pkt.remote ≡ 6
    → 0 < length (tx mac (some pkt))
tx-positive mac pkt m r = omega (
  arith,
  ap length (tx-header mac pkt),
  length-append (header mac pkt) (concat pkt.slices),
  length-header mac pkt m r,
)

module _ {N : Type 0} (inject : N → Inbound → N) where
  -- The frame that `tx` builds of a packet, given to `rx`, is injected under the protocol of the
  -- packet, with its payload whole, and with the addresses in the header. Both addresses have 6
  -- bytes, and the protocol number 16 bits.
  pub rx-tx :
      (net : N) (mac : List ℕ) (pkt : Outbound)
      → length mac ≡ 6
      → length pkt.remote ≡ 6
      → pkt.protocol < 65536
      → rx inject net (tx mac (some pkt))
        ≡ inject net (record {
          protocol = pkt.protocol;
          link_header = pkt.remote ++ (mac ++ put_uint16 pkt.protocol);
          payload = concat pkt.slices;
        })
  unfolding rx
  rx-tx net mac pkt m r small =
      let h : List ℕ = header mac pkt in
      let size : length h ≡ 14 = length-header mac pkt m r in
      let frame : tx mac (some pkt) ≡ h ++ concat pkt.slices = tx-header mac pkt in
      let long : ltb (length (h ++ concat pkt.slices)) 14 ≡ false =
        ground (arith, size, length-append h (concat pkt.slices)) in
      let head : take 14 (h ++ concat pkt.slices) ≡ h =
        take-length-append 14 h (concat pkt.slices) (sym size) in
      let body : drop 14 (h ++ concat pkt.slices) ≡ concat pkt.slices =
        drop-length-append 14 h (concat pkt.slices) (sym size) in
      let number : get_uint 0 (take 2 (drop 12 (h ++ concat pkt.slices))) ≡ pkt.protocol =
        ap (λ l. get_uint 0 (take 2 (drop 12 l))) (header-append mac pkt)
        ∙ ap (λ l. get_uint 0 (take 2 l))
            (drop-length-append 12 (pkt.remote ++ mac)
              (put_uint16 pkt.protocol ++ concat pkt.slices)
              (omega (arith, length-append pkt.remote mac)))
        ∙ ap (get_uint 0) (
            take-length-append 2 (put_uint16 pkt.protocol) (concat pkt.slices)
              (sym (length-put_uint16 pkt.protocol)))
        ∙ get-put_uint16 pkt.protocol small in
      rw (frame, long, head, body, number) refl
