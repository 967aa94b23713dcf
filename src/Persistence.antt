-- ===== src/Persistence.antt =====
-- trusted_applet/internal/storage/persistence.go: the state of SlotPersistence, and the actions on
-- it. Its mutex makes each method that takes it atomic, and is not modelled.
pub mod Directory
pub mod Checkpoints
pub mod Free
pub mod Frames
pub mod Allocation
pub mod Opened
pub mod Latest
pub mod Stored
pub mod Restart
pub mod Taken
pub mod Served
pub mod Assigned
pub mod Blank
pub mod Created
pub mod Empty
pub mod Recovered
pub mod Durable
use text.Mathlib.Text.{◌==◌}
use armored_witness_applet.Prelude.{
  ℕ, List, [], ◌∷◌, Option, none, some, if◌then◌else◌, get_elem?, set,
}
use armored_witness_applet.Result.{Error, Result, ok, err, panic, out_of_fuel}
use armored_witness_applet.Device.{Device}
use armored_witness_applet.Slot.{Slot, read, check_and_write}
use armored_witness_applet.Slots.{Partition, open_slot}
use Prim.Native.String.{String}

-- `slotMap`, a Go map: a list with one entry for a key. Its order stands for the order that Go
-- iterates in.
abbrev pub SlotMap : Type 0
SlotMap = List (String × ℕ)

unfoldable pub lookup : String → SlotMap → Option ℕ
lookup k [] = none
lookup k ((j, v) ∷ m) = if j == k then some v else lookup k m

unfoldable pub insert : String → ℕ → SlotMap → SlotMap
insert k v [] = (k, v) ∷ []
insert k v ((j, w) ∷ m) = if j == k then (k, v) ∷ m else (j, w) ∷ insert k v m

-- What the code calls of gopkg.in/yaml.v3 and of the log format: `none` is an error.
-- `unmarshal_map` decodes into the map that is there, and `left_map` is what an error leaves of it.
pub record Library : Type 0 where
  pub marshal_map : SlotMap → Option (List ℕ)
  pub unmarshal_map : List ℕ → SlotMap → Option SlotMap
  pub left_map : List ℕ → SlotMap → SlotMap
  pub unmarshal_record : List ℕ → Option (List ℕ)
  pub log_id : String → String

-- `directory_slot` is `none` (Go's nil) before Init; a pointer to a slot is its index.
pub record SlotPersistence : Type 0 where
  pub part : Partition
  pub directory_slot : Option ℕ
  pub directory_write_token : ℕ
  pub id_to_slot : SlotMap
  pub free_slots : List ℕ

-- the persistence and the storage
pub record World (S : Type 0) : Type 0 where
  pub per : SlotPersistence
  pub store : S

unfoldable pub new_slot_persistence : Partition → SlotPersistence
new_slot_persistence part = record {
  part = part;
  directory_slot = none;
  directory_write_token = 0;
  id_to_slot = [];
  free_slots = [];
}

-- A method: its outcome, and the state that it leaves, on an error too.
abbrev pub Exec : Type 0 → Type 0 → Type 0
Exec S A = World S → Result A × World S

module _ {S A B : Type 0} where
  abbrev pub continue : Result A → (A → Exec S B) → Exec S B
  continue (ok a) f w = f a w
  continue (err e) f w = (err e, w)
  continue panic f w = (panic, w)
  continue out_of_fuel f w = (out_of_fuel, w)

  infixl 5 ◌>>=◌
  abbrev pub ◌>>=◌ : Exec S A → (A → Exec S B) → Exec S B
  ◌>>=◌ m f w = let (r, w') = m w in continue r f w'

module _ {S A : Type 0} where
  abbrev pub lift : Result A → Exec S A
  lift r w = (r, w)

  -- `if err != nil { return fmt.Errorf(…) }`
  abbrev pub renamed : Error → Result A × World S → Result A × World S
  renamed e (ok a, w) = (ok a, w)
  renamed e (err _, w) = (err e, w)
  renamed e (panic, w) = (panic, w)
  renamed e (out_of_fuel, w) = (out_of_fuel, w)

  abbrev pub wrap : Error → Exec S A → Exec S A
  wrap e m w = renamed e (m w)

-- `s.Read()` through a pointer to slot `i`
unfoldable pub read_at : {S : Type 0} → ℕ → Exec S (List ℕ × ℕ)
read_at i w = elim (get_elem? w.per.part.slots i) [ none ↦ (panic, w) | some x ↦ (read x, w) ]

module _ {S : Type 0} (dev : Device S) (sha256 : List ℕ → List ℕ) where
  -- `s.CheckAndWrite(token, p)` through a pointer to slot `i`
  unfoldable pub check_and_write_at : ℕ → ℕ → List ℕ → Exec S (Unit {0})
  check_and_write_at i token p w = elim (get_elem? w.per.part.slots i) [
    | none ↦ (panic, w)
    | some x ↦
        (let (r, x', s') = check_and_write dev sha256 w.store x token p in
          (
            r,
            record {
              per = record w.per { part = record { slots = set w.per.part.slots i x' } };
              store = s';
            },
          ))
  ]

  -- `p.part.Open(i)`
  unfoldable pub open_at : ℕ → ℕ → Exec S ℕ
  open_at max_alloc i w =
      let (r, part) = open_slot dev sha256 max_alloc w.store w.per.part i in
      (r, record w { per = record w.per { part = part } })
