-- ===== src/Slots/Erasing.antt =====
-- trusted_applet/internal/storage/slots/slots.go: Erase, and what a caller learns of failures.
use armored_witness_applet.Prelude.{
  ℕ, ◌≡◌, refl, ap, ◌∙◌, List, [], ◌∷◌, none, some, arith, map, get_elem?, set, replicate, ◌*◌, ◌%◌,
  word, get_elem?-set_of_some,
}
use armored_witness_applet.Result.{Error, ok, err, panic}
use armored_witness_applet.Device.{Device}
use armored_witness_applet.Journal.Open.{open_journal}
use armored_witness_applet.Slot.{Slot, read, ensure_open, erase_slot}
use armored_witness_applet.Slots.{Partition, erase_slots, erase, open_slot}

-- A slot with its journal dropped.
abbrev pub closed : Slot → Slot
closed x = record x { journal = none }

module _ {S : Type 0} (dev : Device S) where
  erase_slots-failing :
      (e : Error) (s : S) (xs : List Slot)
      → ((lba : ℕ) (b : List ℕ) → dev.write_blocks s lba b ≡ (err e, s))
      → erase_slots dev s xs ≡ (map closed xs, s)
  unfolding erase_slots erase_slot
  erase_slots-failing e s [] fails = refl
  erase_slots-failing e s (x ∷ xs) fails = rw (
    fails x.start (replicate (x.extent * dev.block_size % word) 0),
    erase_slots-failing e s xs fails,
  )

  -- Erase reports success also where every write fails, and nothing is erased.
  pub erase-failing :
      (e : Error) (s : S) (p : Partition)
      → ((lba : ℕ) (b : List ℕ) → dev.write_blocks s lba b ≡ (err e, s))
      → erase dev s p ≡ (ok tt, record { slots = map closed p.slots }, s)
  unfolding erase
  erase-failing e s p fails =
      ap (λ r. (ok tt, record { slots = r.0 }, r.1)) (erase_slots-failing e s p.slots fails)

module _ {S : Type 0} (dev : Device S) (sha256 : List ℕ → List ℕ) (max_alloc : ℕ) where
  -- A slot whose journal cannot be opened is opened with no error, and the first `Read` of it, at
  -- the index that was returned, is a nil pointer.
  pub open_slot-corrupt :
      (e : Error) (s : S) (p : Partition) (i : ℕ) (x : Slot)
      → get_elem? p.slots i ≡ some x
      → x.journal ≡ none
      → open_journal dev sha256 max_alloc s x.start x.extent ≡ err e
      → ((open_slot dev sha256 max_alloc s p i).0 ≡ ok i)
        × (y : Slot) × (get_elem? (open_slot dev sha256 max_alloc s p i).1.slots i ≡ some y)
        × (read y ≡ panic)
  unfolding open_slot ensure_open read
  open_slot-corrupt e s p i x at shut fails =
      let step : open_slot dev sha256 max_alloc s p i ≡ (ok i, record { slots = set p.slots i x }) =
        ground (arith, at, shut, fails) in
      (
        ap (λ r. r.0) step,
        x,
        ap (λ r. get_elem? r.1.slots i) step ∙ get_elem?-set_of_some p.slots i x x at,
        ground (arith, shut),
      )
