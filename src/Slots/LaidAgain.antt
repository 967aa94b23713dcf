-- ===== src/Slots/LaidAgain.antt =====
-- trusted_applet/internal/storage/slots/slots.go: the partition of a restart, whose slots are not open.
use mathlib.Core.Path.{subst}
use armored_witness_applet.Prelude.{
  ℕ, zero, suc, ◌+◌, ◌%◌, word, ◌≡◌, refl, ap, ◌∙◌, List, [], ◌∷◌, none, some, map, get_elem?, set,
  length-set, length-map, inl, inr, arith,
}
use armored_witness_applet.Result.{from_bind, ok-injective, ok}
use armored_witness_applet.Slot.{Slot}
use armored_witness_applet.Slot.Settled.{Apart}
use armored_witness_applet.Slots.{Partition, num_slots, lay_out, open_partition}
use armored_witness_applet.Slots.Lengths.{Geometry, validate}

-- A slot before it is opened, and the partition that OpenPartition lays out again.
abbrev pub shut : Slot → Slot
shut x = record x { journal = none }

abbrev pub laid_again : Partition → Partition
laid_again p = record { slots = map shut p.slots }

pub get_elem?-map :
    (xs : List Slot) (i : ℕ) (x : Slot)
    → get_elem? xs i ≡ some x
    → get_elem? (map shut xs) i ≡ some (shut x)
get_elem?-map [] i x h = cc
get_elem?-map (z ∷ zs) zero x h =
    let e : some z ≡ some x = h in ap (λ v. some (shut v)) {x = z} {y = x} (cc e)
get_elem?-map (z ∷ zs) (suc i) x h = get_elem?-map zs i x h

pub map-set_same :
    (xs : List Slot) (i : ℕ) (x x' : Slot)
    → get_elem? xs i ≡ some x
    → shut x' ≡ shut x
    → map shut (set xs i x') ≡ map shut xs
map-set_same [] i x x' h e = refl
map-set_same (z ∷ zs) zero x x' h e =
    let same : some z ≡ some x = h in
    ap (λ v. v ∷ map shut zs) (e ∙ ap shut {x = x} {y = z} (cc same))
map-set_same (z ∷ zs) (suc i) x x' h e = ap (◌∷◌ (shut z)) (map-set_same zs i x x' h e)

pub num_slots-laid_again : (p : Partition) → num_slots (laid_again p) ≡ num_slots p
unfolding num_slots
num_slots-laid_again p = length-map p.slots shut

pub num_slots-set :
    (p : Partition) (i : ℕ) (x : Slot)
    → num_slots (record { slots = set p.slots i x }) ≡ num_slots p
unfolding num_slots
num_slots-set p i x = length-set p.slots i x

pub Apart-same :
    (x x' y : Slot) → x'.start ≡ x.start → x'.extent ≡ x.extent → Apart x y → Apart x' y
Apart-same x x' y from len (inl h) = inl (omega arith)
Apart-same x x' y from len (inr h) = inr (omega arith)

shut-lay_out : (b : ℕ) (ls : List ℕ) → map shut (lay_out b ls) ≡ lay_out b ls
unfolding lay_out
shut-lay_out b [] = refl
shut-lay_out b (l ∷ ls) =
    ap (◌∷◌ (record { start = b; extent = l; journal = none })) (shut-lay_out ((b + l) % word) ls)

-- What OpenPartition returns is laid out again as it is.
pub laid_again-open_partition :
    (geo : Geometry) (p : Partition) → open_partition geo ≡ ok p → laid_again p ≡ p
unfolding open_partition
laid_again-open_partition geo p h =
    from_bind (validate geo) (λ _. ok (record { slots = lay_out geo.start geo.slot_lengths })) h
      (λ u passed laid.
        let same : record { slots = lay_out geo.start geo.slot_lengths } ≡ p = ok-injective laid in
        subst (λ (q : Partition). laid_again q ≡ q) same
          (ap (λ l. record { slots = l }) (shut-lay_out geo.start geo.slot_lengths)))
