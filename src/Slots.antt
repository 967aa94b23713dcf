-- ===== src/Slots.antt =====
-- trusted_applet/internal/storage/slots/slots.go: partitions and their slots. The mutex of a slot
-- makes each method atomic, and is not modelled: a method is a function from state to state.
pub mod Lengths
pub mod Layout
pub mod LaidAgain
pub mod Erasing
use armored_witness_applet.Prelude.{
  ℕ, ◌+◌, ◌*◌, ◌%◌, List, [], ◌∷◌, Option, none, some, ltb, leb, if◌then◌else◌, length, get_elem?,
  set, word,
}
use armored_witness_applet.Result.{
  Result, ok, err, panic, out_of_fuel, ◌>>=◌, invalid_geometry, invalid_slot,
}
use armored_witness_applet.Device.{Device}
use armored_witness_applet.Slot.{Slot, ensure_open, erase_slot}
use armored_witness_applet.Slots.Lengths.{Geometry, validate}

-- The device is passed beside the partition, with the state of its storage.
pub record Partition : Type 0 where
  pub slots : List Slot

-- the slots that OpenPartition lays out from block `b` on
unfoldable pub lay_out : ℕ → List ℕ → List Slot
lay_out b [] = []
lay_out b (l ∷ ls) = record { start = b; extent = l; journal = none } ∷ lay_out ((b + l) % word) ls

unfoldable pub open_partition : Geometry → Result Partition
unfolding lay_out
open_partition geo =
    validate geo >>= λ _. ok (record { slots = lay_out geo.start geo.slot_lengths })

unfoldable pub num_slots : Partition → ℕ
num_slots p = length p.slots

module _ {S : Type 0} (dev : Device S) where
  -- `Erase`: a failure is only logged, and `borked` is never set.
  unfoldable pub erase_slots : S → List Slot → List Slot × S
  erase_slots s [] = ([], s)
  erase_slots s (x ∷ xs) =
      let (_, x', s') = erase_slot dev s x in let (xs', s'') = erase_slots s' xs in (x' ∷ xs', s'')

  unfoldable pub erase : S → Partition → Result (Unit {0}) × Partition × S
  erase s p = let (xs, s') = erase_slots s p.slots in (ok tt, record { slots = xs }, s')

module _ {S : Type 0} (dev : Device S) (sha256 : List ℕ → List ℕ) (max_alloc : ℕ) where
  -- the slot that `Open` leaves, which only logs the error of opening it
  abbrev pub opened : ℕ → Partition → Result (Unit {0}) × Slot → Result ℕ × Partition
  opened i p (ok _, x) = (ok i, record { slots = set p.slots i x })
  opened i p (err _, x) = (ok i, record { slots = set p.slots i x })
  opened i p (panic, x) = (panic, record { slots = set p.slots i x })
  opened i p (out_of_fuel, x) = (out_of_fuel, record { slots = set p.slots i x })

  -- `Open` of a partition. The pointer to a slot is its index.
  unfoldable pub open_slot : S → Partition → ℕ → Result ℕ × Partition
  open_slot s p i = elim (get_elem? p.slots i) [
    | none ↦ (err invalid_slot, p)
    | some x ↦ opened i p (ensure_open dev sha256 max_alloc s x)
  ]
