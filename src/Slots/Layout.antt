-- ===== src/Slots/Layout.antt =====
-- trusted_applet/internal/storage/slots/slots.go: the blocks of the slots that OpenPartition lays out.
use mathlib.Core.Path.{subst}
use native.Mathlib.Decide.{dec_le}
use armored_witness_applet.Prelude.{
  ℕ, zero, suc, ◌+◌, ◌%◌, ◌≤◌, ◌<◌, ◌≡◌, refl, ap, ◌∙◌, List, [], ◌∷◌, none, some, arith, map,
  get_elem?, word,
}
use armored_witness_applet.Result.{ok, err, invalid_geometry}
use armored_witness_applet.Slots.{Partition, lay_out, open_partition}
use armored_witness_applet.Slot.{Slot}
use armored_witness_applet.Slots.Lengths.{Geometry, total, validate}

-- The sum of the lengths, with no wrap.
abbrev pub sum : List ℕ → ℕ
sum [] = 0
sum (l ∷ ls) = l + sum ls

-- Unopened slots that fill the blocks from `b` up to `e` one behind the other.
abbrev pub Tiles : ℕ → List Slot → ℕ → Type 0
Tiles b [] e = b ≡ e
Tiles b (x ∷ xs) e = (x.start ≡ b) × (x.journal ≡ none) × Tiles (b + x.extent) xs e

total-eq-sum : (t : ℕ) (ls : List ℕ) → t + sum ls < word → total t ls ≡ t + sum ls
unfolding total
total-eq-sum t [] h = omega arith
total-eq-sum t (l ∷ ls) h =
    let e : (t + l) % word ≡ t + l = omega arith in
    rw e (total-eq-sum (t + l) ls (omega arith) ∙ omega arith)

lay_out-Tiles : (b e : ℕ) (ls : List ℕ) → b + sum ls ≡ e → e < word → Tiles b (lay_out b ls) e
unfolding lay_out
lay_out-Tiles b e [] h s = omega arith
lay_out-Tiles b e (l ∷ ls) h s =
    let w : (b + l) % word ≡ b + l = omega arith in
    (refl, refl, rw w (lay_out-Tiles (b + l) e ls (omega arith) s))

extents-lay_out : (b : ℕ) (ls : List ℕ) → map (λ (x : Slot). x.extent) (lay_out b ls) ≡ ls
unfolding lay_out
extents-lay_out b [] = refl
extents-lay_out b (l ∷ ls) = ap (◌∷◌ l) (extents-lay_out ((b + l) % word) ls)

-- A geometry whose lengths do not wrap is accepted exactly if they fit.
pub validate_iff :
    (geo : Geometry)
    → sum geo.slot_lengths < word
    → (validate geo ≡ ok tt → sum geo.slot_lengths ≤ geo.extent)
      × (sum geo.slot_lengths ≤ geo.extent → validate geo ≡ ok tt)
      × (geo.extent < sum geo.slot_lengths → validate geo ≡ err invalid_geometry)
unfolding validate
validate_iff geo h =
    let e : total 0 geo.slot_lengths ≡ sum geo.slot_lengths =
      total-eq-sum 0 geo.slot_lengths (omega arith) ∙ omega arith in
    rw e (λ p. ground arith, λ p. ground arith, λ p. ground arith)

-- OpenPartition lays the slots of a geometry out side by side from its start, with the lengths that
-- it lists, unopened, and inside its blocks. The blocks end below 2^32, and the lengths do not wrap.
pub open_partition-Tiles :
    (geo : Geometry) (p : Partition)
    → sum geo.slot_lengths < word
    → geo.start + geo.extent < word
    → open_partition geo ≡ ok p
    → Tiles geo.start p.slots (geo.start + sum geo.slot_lengths)
      × (map (λ (x : Slot). x.extent) p.slots ≡ geo.slot_lengths)
      × (geo.start + sum geo.slot_lengths ≤ geo.start + geo.extent)
unfolding open_partition
open_partition-Tiles geo p small fit done = go (dec_le (sum geo.slot_lengths) geo.extent)
  where
    laid : Partition
    laid = record { slots = lay_out geo.start geo.slot_lengths }

    go :
        Dec (sum geo.slot_lengths ≤ geo.extent)
        → Tiles geo.start p.slots (geo.start + sum geo.slot_lengths)
          × (map (λ (x : Slot). x.extent) p.slots ≡ geo.slot_lengths)
          × (geo.start + sum geo.slot_lengths ≤ geo.start + geo.extent)
    go (no over) =
        let wrong : validate geo ≡ err invalid_geometry =
          (validate_iff geo small).2 (omega (arith, over)) in
        cc (done, wrong)
    go (yes le) =
        let passed : validate geo ≡ ok tt = (validate_iff geo small).1 le in
        let same : laid ≡ p = cc (done, passed) in
        subst
          (λ (q : Partition).
            Tiles geo.start q.slots (geo.start + sum geo.slot_lengths)
            × (map (λ (x : Slot). x.extent) q.slots ≡ geo.slot_lengths)
            × (geo.start + sum geo.slot_lengths ≤ geo.start + geo.extent))
          same
          (
            lay_out-Tiles geo.start (geo.start + sum geo.slot_lengths) geo.slot_lengths refl
                (omega arith),
            extents-lay_out geo.start geo.slot_lengths,
            omega arith,
          )

Tiles-le : (b e : ℕ) (xs : List Slot) → Tiles b xs e → b ≤ e
Tiles-le b e [] t = omega arith
Tiles-le b e (x ∷ xs) t = omega (arith, Tiles-le (b + x.extent) e xs t.2)

-- A slot lies inside the range of its partition.
Tiles-member :
    (b e : ℕ) (xs : List Slot) (k : ℕ) (y : Slot)
    → Tiles b xs e
    → get_elem? xs k ≡ some y
    → (b ≤ y.start) × (y.start + y.extent ≤ e)
Tiles-member b e [] k y t q = cc
Tiles-member b e (z ∷ zs) zero y t q =
    subst (λ (v : Slot). (b ≤ v.start) × (v.start + v.extent ≤ e)) {x = z} {y = y} (cc)
      (omega (arith, t.0, Tiles-le (b + z.extent) e zs t.2))
Tiles-member b e (z ∷ zs) (suc k) y t q = omega (arith, Tiles-member (b + z.extent) e zs k y t.2 q)

-- Two slots of a partition share no block, and lie inside its range.
Tiles-apart :
    (b e : ℕ) (xs : List Slot) (i k : ℕ) (x y : Slot)
    → Tiles b xs e
    → i < k
    → get_elem? xs i ≡ some x
    → get_elem? xs k ≡ some y
    → (b ≤ x.start) × (x.start + x.extent ≤ y.start) × (y.start + y.extent ≤ e)
Tiles-apart b e [] i k x y t h p q = cc
Tiles-apart b e (z ∷ zs) i zero x y t h p q = absurd (omega arith)
Tiles-apart b e (z ∷ zs) zero (suc k) x y t h p q =
    let same : z ≡ x = cc in
    let (from, to) = Tiles-member (b + z.extent) e zs k y t.2 q in
    subst (λ (v : Slot). (b ≤ v.start) × (v.start + v.extent ≤ y.start) × (y.start + y.extent ≤ e))
      same (omega (arith, t.0, from, to))
Tiles-apart b e (z ∷ zs) (suc i) (suc k) x y t h p q =
    omega (arith, Tiles-apart (b + z.extent) e zs i k x y t.2 (omega arith) p q)

-- The slots of a partition that was opened share no block with each other, and lie inside its
-- blocks. The blocks end below 2^32, and the lengths do not wrap.
pub open_partition-apart :
    (geo : Geometry) (p : Partition) (i k : ℕ) (x y : Slot)
    → sum geo.slot_lengths < word
    → geo.start + geo.extent < word
    → open_partition geo ≡ ok p
    → i < k
    → get_elem? p.slots i ≡ some x
    → get_elem? p.slots k ≡ some y
    → (geo.start ≤ x.start)
      × (x.start + x.extent ≤ y.start)
      × (y.start + y.extent ≤ geo.start + geo.extent)
open_partition-apart geo p i k x y small fit done less at_i at_k =
    let (tiles, lengths, within) = open_partition-Tiles geo p small fit done in
    omega (
      arith,
      within,
      Tiles-apart geo.start (geo.start + sum geo.slot_lengths) p.slots i k x y tiles less at_i at_k,
    )
