-- ===== src/Persistence/Directory.antt =====
-- trusted_applet/internal/storage/persistence.go: the map from log IDs to slots, and the slots that
-- are free.
use Prim.Native.String.{String}
use armored_witness_applet.Prelude.{
  ℕ, ◌+◌, ◌%◌, List, [], ◌∷◌, Bool, true, false, none, some, ltb, ◌==◌, if◌then◌else◌, length, set,
  replicate, word,
}
use armored_witness_applet.Result.{
  Result, ok, err, panic, out_of_fuel, open_mapping_slot, populate_failed, read_failed,
  unmarshal_mapping, reserved_slot_used, no_slot_for_log, assign_slot, marshal_mapping,
  store_mapping, no_free_slot,
}
use armored_witness_applet.Device.{Device}
use armored_witness_applet.Slots.{num_slots}
use armored_witness_applet.Persistence.{
  SlotMap, lookup, insert, Library, Exec, continue, ◌>>=◌, lift, wrap, read_at, check_and_write_at,
  open_at,
}

abbrev pub mapping_config_slot : ℕ
mapping_config_slot = 0

-- the loop of `populateMap` that marks the slots in use
unfoldable pub mark : List Bool → SlotMap → Result (List Bool)
mark state [] = ok state
mark state ((id, idx) ∷ m) =
    let rest = mark (set state idx true) m in
    if idx == mapping_config_slot
    then err reserved_slot_used
    else if ltb idx (length state)
    then rest
    else panic

-- the loop that collects the indices, from `i` on, of the slots not in use
unfoldable pub unused : ℕ → List Bool → List ℕ
unused i [] = []
unused i (true ∷ bs) = unused (i + 1) bs
unused i (false ∷ bs) = i ∷ unused (i + 1) bs

-- `slotState` and `freeSlots` for a map in a partition of `n` slots
unfoldable pub free_list : ℕ → Result (List Bool) → Result (List ℕ)
free_list n (ok state) =
    if ltb mapping_config_slot (length state)
    then ok (unused 0 (set state mapping_config_slot true))
    else panic
free_list n (err e) = err e
free_list n panic = panic
free_list n out_of_fuel = out_of_fuel

module _ {S : Type 0} (lib : Library) where
  -- the part of `populateMap` behind the read of the directory slot
  unfoldable pub load_map : List ℕ × ℕ → Exec S (Unit {0})
  load_map d w = elim (lib.unmarshal_map d.0 w.per.id_to_slot) [
    | none ↦
        (let left = lib.left_map d.0 w.per.id_to_slot in
          (err unmarshal_mapping, record w { per = record w.per { id_to_slot = left } }))
    | some m ↦
        (let n = num_slots w.per.part in
          let per = record w.per { id_to_slot = m; directory_write_token = d.1 } in
          continue (free_list n (mark (replicate n false) m))
            (λ free w'. (ok tt, record w' { per = record w'.per { free_slots = free } }))
            (record w { per = per }))
  ]

  unfoldable pub populate_map : Exec S (Unit {0})
  populate_map w = elim w.per.directory_slot [
    | none ↦ (panic, w)
    | some i ↦ (wrap read_failed (read_at i) >>= load_map) w
  ]

module _ {S : Type 0} (dev : Device S) (sha256 : List ℕ → List ℕ) (max_alloc : ℕ)
    (lib : Library) where
  unfoldable pub init : Exec S (Unit {0})
  init = wrap open_mapping_slot (open_at dev sha256 max_alloc mapping_config_slot) >>= λ i w.
      wrap populate_failed (populate_map lib)
        (record w { per = record w.per { directory_slot = some i } })

module _ {S : Type 0} (dev : Device S) (sha256 : List ℕ → List ℕ) (lib : Library) where
  -- `p.directorySlot.CheckAndWrite`
  abbrev pub store_raw : List ℕ → Exec S (Unit {0})
  store_raw raw w = elim w.per.directory_slot [
    | none ↦ (panic, w)
    | some i ↦ check_and_write_at dev sha256 i w.per.directory_write_token raw w
  ]

  unfoldable pub store_directory : Exec S (Unit {0})
  store_directory w = elim (lib.marshal_map w.per.id_to_slot) [
    | none ↦ (err marshal_mapping, w)
    | some raw ↦
        (wrap store_mapping (store_raw raw) >>= λ _ w'. (
          ok tt,
          record w' {
            per = record w'.per {
              directory_write_token = (w'.per.directory_write_token + 1) % word;
            };
          },
        ))
          w
  ]

  -- `addLog` once it has taken slot `f` from the free ones
  unfoldable pub assign : String → ℕ → List ℕ → Exec S ℕ
  assign id f rest w = (wrap store_mapping store_directory >>= λ _. lift (ok f)) (record w {
    per = record w.per { free_slots = rest; id_to_slot = insert id f w.per.id_to_slot };
  })

  unfoldable pub add_log : String → Exec S ℕ
  add_log id w = elim (lookup id w.per.id_to_slot) [
    | some i ↦ (ok i, w)
    | none ↦ elim w.per.free_slots [ [] ↦ (err no_free_slot, w) | f ∷ rest ↦ assign id f rest w ]
  ]

  unfoldable pub log_slot : String → Bool → Exec S ℕ
  log_slot id create w = elim (lookup id w.per.id_to_slot) [
    | some i ↦ (ok i, w)
    | none ↦ (if create then wrap assign_slot (add_log id) w else (err no_slot_for_log, w))
  ]
