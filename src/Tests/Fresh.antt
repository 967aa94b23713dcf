-- ===== src/Tests/Fresh.antt =====
-- Tests of a log that is given a slot: a device of six empty blocks, with two slots.
use armored_witness_applet.Persistence.Empty.{init-IsNew}
use armored_witness_applet.Prelude.{
  ℕ, zero, suc, ◌<◌, ◌≤◌, ◌≡◌, refl, inr, inl, [], ◌∷◌, none, some, true, false, arith, length,
  replicate, put_uint32, put_uint64,
}
use armored_witness_applet.Result.{ok, invalid_magic}
use armored_witness_applet.Device.Laws.{IsBlockStore}
use armored_witness_applet.Journal.{Journal}
use armored_witness_applet.Journal.BlockReader.{new_block_reader, fill, read, read_full}
use armored_witness_applet.Journal.Record.{unmarshal_entry, marshal_entry}
use armored_witness_applet.Journal.Chain.{Unreadable}
use armored_witness_applet.Journal.Update.{
  update as update_journal, write_block, write_entry, finish_update, current_data,
}
use armored_witness_applet.Journal.Updating.{Accepts}
use armored_witness_applet.MemDev.{
  Storage, mem_dev, read_blocks, read_loop, write_blocks, write_loop, pad,
}
use armored_witness_applet.MemDev.Loops.{content, IsStorage}
use armored_witness_applet.MemDev.Laws.{mem_dev-IsBlockStore}
use armored_witness_applet.Slot.{Slot, check_and_write}
use armored_witness_applet.Slot.Settled.{Lands}
use armored_witness_applet.Slots.{num_slots, Partition}
use armored_witness_applet.Persistence.{World, lookup, insert, Library}
use armored_witness_applet.Persistence.Directory.{mark, unused, free_list, init}
use armored_witness_applet.Persistence.Checkpoints.{slot_of}
use armored_witness_applet.Persistence.Served.{IsServed, started}
use armored_witness_applet.Persistence.Created.{IsNew, slot_of-IsServed}
use armored_witness_applet.Persistence.Blank.{IsRoom}
use armored_witness_applet.Tests.{digest, limit, empty_block, new_journal, new_journal-IsPlaced}
use armored_witness_applet.Tests.Logs.{map_codec}
use armored_witness_applet.Tests.Restart.{three_blocks, block_max}

abbrev disk : Storage
disk = replicate 6 empty_block

disk-IsStorage : IsStorage 6 disk
disk-IsStorage = record { count = refl; sizes = sizes }
  where
    sizes : (i : ℕ) → i < 6 → length (content disk i) ≡ 512
    sizes zero h = refl
    sizes (suc zero) h = refl
    sizes (suc (suc zero)) h = refl
    sizes (suc (suc (suc zero))) h = refl
    sizes (suc (suc (suc (suc zero)))) h = refl
    sizes (suc (suc (suc (suc (suc zero))))) h = refl
    sizes (suc (suc (suc (suc (suc (suc i)))))) h = absurd (omega arith)

laws : IsBlockStore mem_dev 6 (IsStorage 6) content
laws = mem_dev-IsBlockStore 6 (omega arith)

-- A codec that reads nothing as no change to the map
abbrev plain_codec : Library
plain_codec = record map_codec {
  unmarshal_map = λ b m. elim b [ [] ↦ some m | c ∷ cs ↦ some (("a", 1) ∷ []) ];
}

abbrev directory : Slot
directory = record { start = 0; extent = 3; journal = some new_journal }

abbrev first_slot : Slot
first_slot = record { start = 3; extent = 3; journal = none }

abbrev no_logs : World Storage
no_logs = record {
  per = record {
    part = record { slots = directory ∷ first_slot ∷ [] };
    directory_slot = some 0;
    directory_write_token = 0;
    id_to_slot = [];
    free_slots = 1 ∷ [];
  };
  store = disk;
}

directory_blocks : (i : ℕ) → 0 ≤ i → i < 3 → Unreadable mem_dev digest limit disk i
unfolding mem_dev read_blocks read_loop new_block_reader fill read read_full unmarshal_entry
directory_blocks zero l h = (invalid_magic, refl)
directory_blocks (suc zero) l h = (invalid_magic, refl)
directory_blocks (suc (suc zero)) l h = (invalid_magic, refl)
directory_blocks (suc (suc (suc i))) l h = absurd (omega arith)

log_unknown : lookup "a" no_logs.per.id_to_slot ≡ none
unfolding lookup
log_unknown = refl

one_free :
    free_list
      (num_slots no_logs.per.part)
      (mark (replicate (num_slots no_logs.per.part) false) no_logs.per.id_to_slot)
    ≡ ok (1 ∷ [])
unfolding free_list mark unused num_slots
one_free = refl

abbrev no_logs-IsNew :
    IsNew mem_dev 6 content digest limit plain_codec no_logs "a" 1 first_slot directory new_journal
no_logs-IsNew = record {
  unknown = log_unknown;
  rest = [];
  free = refl;
  listed = one_free;
  there = refl;
  shut = refl;
  directory_slot = refl;
  directory = refl;
  step = record {
    attached = refl;
    start = refl;
    extent = refl;
    placed = new_journal-IsPlaced;
    inside = omega arith;
    fits = three_blocks;
    max = block_max;
    old = inr (record { none = directory_blocks; current = refl; next = refl });
  };
  token = refl;
  apart = inr (omega arith);
}

mapped : plain_codec.unmarshal_map (7 ∷ []) [] ≡ some (insert "a" 1 [])
unfolding insert
mapped = refl

map-Accepts : Accepts digest limit new_journal (7 ∷ [])
map-Accepts = record {
  admitted = refl;
  revision = omega arith;
  allocated = omega arith;
  digest_size = refl;
}

map_place : write_block mem_dev.block_size new_journal 49 ≡ 0
unfolding mem_dev write_block
map_place = refl

map-Lands : Lands mem_dev 6 content digest limit disk directory new_journal (7 ∷ [])
unfolding update_journal write_entry finish_update write_block marshal_entry mem_dev write_blocks
    write_loop pad put_uint32 put_uint64 read_blocks read_loop new_block_reader fill read read_full
    unmarshal_entry
map-Lands = record {
  forged = λ i from to. absurd (omega (arith, map_place));
  stops = inr (inl (invalid_magic, refl));
}

map_written : (check_and_write mem_dev digest disk directory 0 (7 ∷ [])).0 ≡ ok tt
unfolding check_and_write update_journal write_entry finish_update write_block marshal_entry mem_dev
    write_blocks write_loop pad
map_written = refl

first_slot-IsRoom : IsRoom mem_dev.block_size 6 first_slot
unfolding mem_dev
first_slot-IsRoom = record {
  inside = omega arith;
  fits = omega arith;
  small = omega arith;
  extent_small = omega arith;
  headers = omega arith;
}

log_blocks :
    (i : ℕ)
    → 3 ≤ i
    → i < 6
    → Unreadable mem_dev digest limit (check_and_write mem_dev digest disk directory 0 (7 ∷ [])).2 i
unfolding check_and_write update_journal write_entry finish_update write_block marshal_entry mem_dev
    write_blocks write_loop pad put_uint32 put_uint64 read_blocks read_loop new_block_reader fill
    read read_full unmarshal_entry
log_blocks (suc (suc (suc zero))) l h = (invalid_magic, refl)
log_blocks (suc (suc (suc (suc zero)))) l h = (invalid_magic, refl)
log_blocks (suc (suc (suc (suc (suc zero))))) l h = (invalid_magic, refl)
log_blocks zero l h = absurd (omega arith)
log_blocks (suc zero) l h = absurd (omega arith)
log_blocks (suc (suc zero)) l h = absurd (omega arith)
log_blocks (suc (suc (suc (suc (suc (suc i)))))) l h = absurd (omega arith)

slot_of-IsServed_example :
    ((slot_of mem_dev digest limit plain_codec "a" true no_logs).0 ≡ ok 1)
    × ((x' y' : Slot) × (j k' : Journal) × IsServed mem_dev 6 content digest limit plain_codec
          (slot_of mem_dev digest limit plain_codec "a" true no_logs).1
          "a"
          1
          x'
          y'
          j
          k'
        × (current_data j ≡ ([], 0)))
slot_of-IsServed_example =
    slot_of-IsServed laws digest limit plain_codec "a" no_logs disk-IsStorage 1 first_slot directory
      new_journal no_logs-IsNew (7 ∷ []) refl mapped map-Accepts map-Lands map_written
      first_slot-IsRoom log_blocks

-- The same device before Init
abbrev new_part : Partition
new_part = record { slots = record directory { journal = none } ∷ first_slot ∷ [] }

directory-IsRoom : IsRoom mem_dev.block_size 6 (record directory { journal = none })
unfolding mem_dev
directory-IsRoom = record {
  inside = omega arith;
  fits = omega arith;
  small = omega arith;
  extent_small = omega arith;
  headers = omega arith;
}

init-IsNew_example :
    ((init mem_dev digest limit plain_codec (started new_part disk)).0 ≡ ok tt)
    × ((y' : Slot) × (k : Journal) × IsNew mem_dev 6 content digest limit plain_codec
          (init mem_dev digest limit plain_codec (started new_part disk)).1
          "a"
          1
          first_slot
          y'
          k)
init-IsNew_example =
    init-IsNew laws digest limit plain_codec new_part disk "a" first_slot
      (record directory { journal = none }) disk-IsStorage refl refl directory-IsRoom
      directory_blocks refl refl refl (inr (omega arith))
