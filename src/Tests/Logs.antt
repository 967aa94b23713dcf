-- ===== src/Tests/Logs.antt =====
-- Tests of SlotPersistence.
use armored_witness_applet.Prelude.{ℕ, ◌≡◌, refl, List, [], ◌∷◌, none, some, true, false, replicate}
use armored_witness_applet.Result.{Result, ok}
use armored_witness_applet.MemDev.{Storage, mem_dev}
use armored_witness_applet.Persistence.{
  read_at, check_and_write_at, open_at, Library, SlotMap, World, lookup,
}
use armored_witness_applet.Persistence.Directory.{mark, unused, free_list, log_slot}
use armored_witness_applet.Persistence.Allocation.{pool, log_slot-pool, log_slot-again}
use armored_witness_applet.Persistence.Checkpoints.{
  slot_of, latest, update, cut_prefix, marshal_checkpoint, unmarshal_checkpoint,
}
use armored_witness_applet.Persistence.Latest.{latest-update}
use armored_witness_applet.Slot.{read, check_and_write, ensure_open}
use armored_witness_applet.Slots.{open_slot}
use armored_witness_applet.Journal.Update.{
  update as update_journal, write_block, write_entry, finish_update,
}
use armored_witness_applet.Journal.Record.{marshal_entry}
use armored_witness_applet.MemDev.{write_blocks, write_loop, pad}
use armored_witness_applet.Tests.{digest, limit, new_journal, empty_disk, payload}

abbrev mapping : SlotMap
mapping = ("a", 2) ∷ []

free_of_mapping : free_list 4 (mark (replicate 4 false) mapping) ≡ ok (1 ∷ 3 ∷ [])
unfolding free_list mark unused
free_of_mapping = refl

-- A codec that stores nothing, so that the directory is never written
abbrev pub no_codec : Library
no_codec = record {
  left_map = λ b m. m;
  marshal_map = λ m. none;
  unmarshal_map = λ b m. none;
  unmarshal_record = λ b. none;
  log_id = λ s. s;
}

abbrev world : World Storage
world = record {
  per = record {
    part = record { slots = [] };
    directory_slot = some 0;
    directory_write_token = 0;
    id_to_slot = mapping;
    free_slots = 1 ∷ 3 ∷ [];
  };
  store = empty_disk;
}

unknown : lookup "b" mapping ≡ none
unfolding lookup
unknown = refl

log_slot-pool_example :
    pool (log_slot mem_dev digest no_codec "b" true world).1.per ≡ 2 ∷ 1 ∷ 3 ∷ []
log_slot-pool_example = log_slot-pool mem_dev digest no_codec "b" true world

log_slot-again_example :
    let w' = (log_slot mem_dev digest no_codec "b" true world).1 in
    log_slot mem_dev digest no_codec "b" false w' ≡ (ok 1, w')
log_slot-again_example =
    log_slot-again mem_dev digest no_codec "b" false 1 (3 ∷ []) world unknown refl

-- A log whose slot is open and empty
abbrev pub codec : Library
codec = record no_codec { unmarshal_record = λ b. some b }

abbrev log_world : World Storage
log_world = record {
  per = record {
    part = record {
      slots =
          record { start = 3; extent = 0; journal = none }
          ∷ record { start = 0; extent = 3; journal = some new_journal }
          ∷ [];
    };
    directory_slot = some 0;
    directory_write_token = 0;
    id_to_slot = ("a", 1) ∷ [];
    free_slots = [];
  };
  store = empty_disk;
}

abbrev pub to_payload : List ℕ → Result (List ℕ)
to_payload cp = ok payload

log_updated : (update mem_dev digest limit codec "a" to_payload log_world).0 ≡ ok tt
unfolding update slot_of log_slot lookup open_at open_slot ensure_open read_at read
    unmarshal_checkpoint cut_prefix marshal_checkpoint check_and_write_at check_and_write
    update_journal write_entry finish_update write_block marshal_entry mem_dev write_blocks
    write_loop pad
log_updated = refl

latest-update_example :
    (cp new : List ℕ) × (to_payload cp ≡ ok new)
    × (latest mem_dev digest limit codec "a"
          (update mem_dev digest limit codec "a" to_payload log_world).1
        ≡ (ok new, (update mem_dev digest limit codec "a" to_payload log_world).1))
latest-update_example =
    latest-update mem_dev digest limit codec "a" to_payload log_world log_updated

-- A codec for the map of the log
abbrev pub map_codec : Library
map_codec = record codec {
  left_map = λ b m. m;
  marshal_map = λ m. some (7 ∷ []);
  unmarshal_map = λ b m. some (("a", 1) ∷ []);
}
