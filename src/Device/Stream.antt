-- ===== src/Device/Stream.antt =====
-- Contiguous blocks as one run of bytes, for statements about whole records.
use native.Mathlib.Nat.{add-zero}
use mathlib.Core.List.{append_assoc}
use armored_witness_applet.Prelude.{
  ℕ, zero, suc, ◌+◌, ◌*◌, ◌-◌, ◌<◌, ◌≡◌, refl, ap, List, [], ◌++◌, arith, length, length-append,
}

-- The bytes of the `n` blocks from `lba` on.
abbrev pub stream : (ℕ → List ℕ) → ℕ → ℕ → List ℕ
stream block lba zero = []
stream block lba (suc n) = block lba ++ stream block (suc lba) n

pub length-stream :
    (block : ℕ → List ℕ) (bs lba n : ℕ)
    → ((i : ℕ) → i < lba + n → length (block i) ≡ bs)
    → length (stream block lba n) ≡ n * bs
length-stream block bs lba zero h = omega arith
length-stream block bs lba (suc n) h = omega (
  arith,
  length-append (block lba) (stream block (suc lba) n),
  h lba (omega arith),
  length-stream block bs (suc lba) n (λ i q. h i (omega arith)),
)

-- Runs over blocks that agree are equal.
pub stream_ext :
    (f g : ℕ → List ℕ) (lba n : ℕ)
    → ((i : ℕ) → i < n → f (lba + i) ≡ g (lba + i))
    → stream f lba n ≡ stream g lba n
stream_ext f g lba zero h = refl
stream_ext f g lba (suc n) h =
    let here : f lba ≡ g lba = rw (add-zero) at (h 0 (omega arith)) in
    let there : stream f (suc lba) n ≡ stream g (suc lba) n =
      stream_ext f g (suc lba) n (λ i q.
        let e : suc lba + i ≡ lba + suc i = omega arith in rw e (h (suc i) (omega arith))) in
    rw (here, there)

-- A run that has bytes has a first block.
pub stream_nonempty : (block : ℕ → List ℕ) (lba n : ℕ) → 0 < length (stream block lba n) → 0 < n
stream_nonempty block lba zero h = h
stream_nonempty block lba (suc n) h = omega arith

pub stream_uncons :
    (block : ℕ → List ℕ) (lba top : ℕ)
    → lba < top
    → stream block lba (top - lba) ≡ block lba ++ stream block (suc lba) (top - suc lba)
stream_uncons block lba top h =
    let e : top - lba ≡ suc (top - suc lba) = omega arith in ap (stream block lba) e

pub stream-append :
    (block : ℕ → List ℕ) (lba n m : ℕ)
    → stream block lba (n + m) ≡ stream block lba n ++ stream block (lba + n) m
stream-append block lba zero m =
    let e : 0 + m ≡ m = omega arith in let f : lba + 0 ≡ lba = omega arith in rw (e, f)
stream-append block lba (suc n) m =
    let e : suc n + m ≡ suc (n + m) = omega arith in
    let f : lba + suc n ≡ suc lba + n = omega arith in
    rw (e, f, stream-append block (suc lba) n m, append_assoc)
