-- ===== src/Persistence/Checkpoints.antt =====
-- trusted_applet/internal/storage/persistence.go: checkpoints in the slots of their logs.
use Prim.Native.String.{String}
use armored_witness_applet.Prelude.{
  ◌≡◌, refl, ℕ, List, [], ◌∷◌, ◌++◌, Bool, true, false, Option, none, some, ◌==◌, if◌then◌else◌,
  length, bytes_equal, take, drop,
}
use armored_witness_applet.Result.{
  Error, Result, ok, err, panic, out_of_fuel, read_failed, open_log_slot, no_checkpoint,
  unmarshal_checkpoint as unmarshal_failed, write_failed,
}
use armored_witness_applet.Result
use armored_witness_applet.Device.{Device}
use armored_witness_applet.Persistence.{
  Library, Exec, ◌>>=◌, lift, wrap, read_at, check_and_write_at, open_at,
}
use armored_witness_applet.Persistence.Directory.{log_slot}

-- "\x01RAW"
abbrev pub raw_record_magic : List ℕ
raw_record_magic = 1 ∷ b'R' ∷ b'A' ∷ b'W' ∷ []

unfoldable pub marshal_checkpoint : List ℕ → List ℕ
marshal_checkpoint cp = raw_record_magic ++ cp

-- `bytes.CutPrefix`
unfoldable pub cut_prefix : List ℕ → List ℕ → Option (List ℕ)
cut_prefix b prefix =
    if bytes_equal (take (length prefix) b) prefix then some (drop (length prefix) b) else none

unfoldable pub unmarshal_checkpoint : Library → List ℕ → Result (List ℕ)
unmarshal_checkpoint lib b = elim (cut_prefix b raw_record_magic) [
  | some cp ↦ ok cp
  | none ↦ elim (lib.unmarshal_record b) [ none ↦ err unmarshal_failed | some cp ↦ ok cp ]
]

module _ {S : Type 0} (dev : Device S) (sha256 : List ℕ → List ℕ) (max_alloc : ℕ)
    (lib : Library) where
  -- the slot of a log, opened
  unfoldable pub slot_of : String → Bool → Exec S ℕ
  slot_of origin create = log_slot dev sha256 lib (lib.log_id origin) create >>= λ i.
      wrap open_log_slot (open_at dev sha256 max_alloc i)

  unfoldable pub latest : String → Exec S (List ℕ)
  latest origin = slot_of origin false >>= λ i. wrap read_failed (read_at i) >>= λ d.
      lift (if length d.0 == 0 then err no_checkpoint else unmarshal_checkpoint lib d.0)

  -- `Update`: `f` makes the new checkpoint from the current one, or refuses.
  unfoldable pub update : String → (List ℕ → Result (List ℕ)) → Exec S (Unit {0})
  update origin f = slot_of origin true >>= λ i. wrap read_failed (read_at i) >>= λ d.
      lift (Result.wrap unmarshal_failed (unmarshal_checkpoint lib d.0)) >>= λ cp.
      lift (f cp) >>= λ new.
      wrap write_failed (check_and_write_at dev sha256 i d.1 (marshal_checkpoint new))

-- A checkpoint that is stored is read back as it is, whatever YAML would make of it.
pub unmarshal-marshal_checkpoint :
    (lib : Library) (cp : List ℕ) → unmarshal_checkpoint lib (marshal_checkpoint cp) ≡ ok cp
unfolding unmarshal_checkpoint marshal_checkpoint cut_prefix
unmarshal-marshal_checkpoint lib cp = refl
