-- ===== src/Journal/Space.antt =====
-- trusted_applet/internal/storage/slots/journal.go: where `Update` puts a record, in numbers.
use native.Mathlib.Nat.{
  mod-eq_of_lt, mul_comm, mul_assoc, one-mul, mul-div_left, add-mul, suc-mul, div-mul-le_self,
  lt-div-mul-add, lt_of_mul-lt-mul_left, mul-le-mul_right,
}
use mathlib.Core.Path.{ap₂}
use armored_witness_applet.Prelude.{
  ℕ, suc, ◌+◌, ◌-◌, ◌*◌, ◌/◌, ◌%◌, ◌≤◌, ◌<◌, ◌≡◌, ◌≢◌, refl, ap, ◌∙◌, inl, inr, arith, word, ltb,
  Bool-cases, ltb→lt,
}
use armored_witness_applet.Device.Laws.{Covers}
use armored_witness_applet.Journal.{Journal}
use armored_witness_applet.Journal.Open.{max_data}
use armored_witness_applet.Journal.Update.{write_block}

-- The blocks that a record of `len` bytes takes.
abbrev pub blocks : ℕ → ℕ → ℕ
blocks bs len = (len + bs - 1) / bs

pub blocks-Covers : (bs len : ℕ) → 0 < bs → 0 < len → Covers bs (blocks bs len) len
blocks-Covers bs len hb hl =
    omega (arith, div-mul-le_self (len + bs - 1) bs, lt-div-mul-add {a = len + bs - 1} {b = bs} hb)

-- What fits in `k` blocks takes no more than them.
pub Covers-le : (bs n k len : ℕ) → Covers bs n len → len ≤ k * bs → n ≤ k
Covers-le bs n k len c h =
    let below : bs * n < bs * suc k =
      omega (arith, mul_comm bs n, mul_comm bs (suc k), suc-mul k bs) in
    omega (arith, lt_of_mul-lt-mul_left bs {m = n} {n = suc k} below)

-- A journal whose blocks lie below `top`, with the space for three records of the largest size.
pub record IsPlaced (bs top : ℕ) (j : Journal) : Type 0 where
  pub block_pos : 0 < bs
  pub ends : j.start + j.extent ≡ top
  pub top_small : top < word
  pub extent_small : j.extent * bs < word
  pub next_from : j.start ≤ j.next_block
  pub next_to : j.next_block ≤ top
  pub room : 3 * (j.max_data_bytes + 48) ≤ j.extent * bs

-- Where a record of `len` bytes goes, and why.
pub data Place (bs top : ℕ) (j : Journal) (len w : ℕ) : Type 0 where
  behind : w ≡ j.next_block → len ≤ (top - j.next_block) * bs → Place bs top j len w
  wrapped : w ≡ j.start → (top - j.next_block) * bs < len → Place bs top j len w

pub write_block-Place :
    (bs top : ℕ) (j : Journal) (len : ℕ)
    → IsPlaced bs top j
    → Place bs top j len (write_block bs j len)
unfolding write_block
write_block-Place bs top j len p = elim (Bool-cases (ltb cap len)) [
  | inl full ↦ rw full (wrapped refl (omega (arith, room, ltb→lt cap len full)))
  | inr fit ↦ rw fit (behind refl (ground (arith, room, fit)))
]
  where
    cap : ℕ
    cap = (j.start + j.extent + word - j.next_block) % word * bs % word

    left : (j.start + j.extent + word - j.next_block) % word ≡ top - j.next_block
    left = omega (arith, p.ends, p.top_small, p.next_to)

    room : cap ≡ (top - j.next_block) * bs
    room =
        ap (λ k. k * bs % word) left
        ∙ mod-eq_of_lt (
            omega (
              arith,
              p.extent_small,
              mul-le-mul_right {m = top - j.next_block} {n = j.extent} bs
                  (omega (arith, p.ends, p.next_from)),
            ))

-- A record of the largest size at most is written below `top`.
pub Place-le :
    (bs top : ℕ) (j : Journal) (len w n : ℕ)
    → IsPlaced bs top j
    → len ≤ j.max_data_bytes + 48
    → Covers bs n len
    → Place bs top j len w
    → (j.start ≤ w) × (w + n ≤ top)
Place-le bs top j len w n p h c (behind e fit) =
    omega (arith, Covers-le bs n (top - j.next_block) len c fit)
Place-le bs top j len w n p h c (wrapped e full) =
    omega (arith, Covers-le bs n j.extent len c (omega (arith, p.room)))

-- In a journal of 3k or 3k+2 blocks a record that wraps to the start ends before the record of the
-- last entry, so that a write that fails does not touch it.
pub wrapped_clear :
    (bs top : ℕ) (j : Journal) (len n last m : ℕ) (len' : ℕ)
    → IsPlaced bs top j
    → j.extent % 3 ≢ 1
    → len ≤ j.max_data_bytes + 48
    → len' ≤ j.max_data_bytes + 48
    → Covers bs n len
    → Covers bs m len'
    → j.next_block ≡ last + m
    → (top - j.next_block) * bs < len
    → j.start + n ≤ last
wrapped_clear bs top j len n last m len' p thirds h h' c c' e full =
    let q : ℕ = (j.extent + 2) / 3 in
    let whole : 3 * q * bs ≡ 3 * (q * bs) = mul_assoc 3 q bs in
    let third : j.extent * bs ≤ 3 * q * bs = mul-le-mul_right bs (omega arith) in
    let new : n ≤ q = Covers-le bs n q len c (omega (arith, p.room)) in
    let old : m ≤ q = Covers-le bs m q len' c' (omega (arith, p.room)) in
    let r : ℕ = top - j.next_block in
    let less : bs * (3 * r) < bs * j.extent =
      omega (arith, p.room, mul_comm bs (3 * r), mul_assoc 3 r bs, mul_comm bs j.extent) in
    let gap : 3 * r < j.extent = lt_of_mul-lt-mul_left bs {m = 3 * r} {n = j.extent} less in
    omega (arith, p.ends, p.next_to)

-- A journal of 3k+1 blocks has no such room: a record of k blocks and a byte is admitted, takes k+1
-- blocks, and wraps to the start where an equal one is the last: onto the block that it begins at.
pub wrapped_overlaps :
    (bs top k : ℕ) (j : Journal)
    → IsPlaced bs top j
    → j.max_data_bytes ≡ max_data bs j.extent
    → 3 ≤ bs
    → j.extent ≡ 3 * k + 1
    → j.next_block ≡ j.start + k + (k + 1)
    → (k * bs + 1 ≤ j.max_data_bytes + 48)
      × (write_block bs j (k * bs + 1) ≡ j.start)
      × (j.start + blocks bs (k * bs + 1) ≡ j.start + k + 1)
wrapped_overlaps bs top k j p max three e next =
    let size : j.extent * bs ≡ 3 * (k * bs) + bs =
      ap (λ l. l * bs) e ∙ add-mul (3 * k) 1 bs ∙ ap₂ ◌+◌ (mul_assoc 3 k bs) (one-mul bs) in
    let left : (top - j.next_block) * bs ≡ k * bs = ap (λ l. l * bs) (omega (arith, p.ends)) in
    let count : (k * bs + 1 + bs - 1) / bs ≡ k + 1 =
      ap (λ l. l / bs) (omega (arith, add-mul k 1 bs, one-mul bs))
      ∙ mul-div_left (k + 1) p.block_pos in
    (
      omega (arith, p.extent_small, p.room),
      place left (write_block-Place bs top j (k * bs + 1) p),
      omega arith,
    )
  where
    place :
        (top - j.next_block) * bs ≡ k * bs
        → Place bs top j (k * bs + 1) (write_block bs j (k * bs + 1))
        → write_block bs j (k * bs + 1) ≡ j.start
    place left (behind at fit) = absurd (omega (arith, left))
    place left (wrapped at full) = at
