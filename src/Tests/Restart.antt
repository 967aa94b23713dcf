-- ===== src/Tests/Restart.antt =====
-- Tests of a restart: two slots, the directory and the slot of a log, of three blocks each.
use mathlib.Core.List.{append-nil}
use armored_witness_applet.Prelude.{
  ℕ, zero, suc, ◌<◌, ◌≤◌, ◌≡◌, refl, inl, inr, List, [], ◌∷◌, ◌++◌, some, false, arith, length,
  replicate, put_uint32, put_uint64, word, ◌*◌,
}
use armored_witness_applet.Result.{ok, invalid_magic}
use armored_witness_applet.Device.Laws.{IsBlockStore}
use armored_witness_applet.Journal.{Entry, Journal, magic0}
use armored_witness_applet.Journal.Open.{max_data}
use armored_witness_applet.Journal.BlockReader.{new_block_reader, fill, read, read_full}
use armored_witness_applet.Journal.Record.{unmarshal_entry, marshal_entry}
use armored_witness_applet.Journal.RoundTrip.{encode}
use armored_witness_applet.Journal.Layout.{Holds}
use armored_witness_applet.Journal.Chain.{Unreadable, one}
use armored_witness_applet.Journal.Update.{
  update as update_journal, write_block, write_entry, finish_update, current_data,
}
use armored_witness_applet.Journal.Updating.{Accepts}
use armored_witness_applet.MemDev.{
  Storage, mem_dev, read_blocks, read_loop, write_blocks, write_loop, pad,
}
use armored_witness_applet.MemDev.Loops.{content, IsStorage}
use armored_witness_applet.MemDev.Laws.{mem_dev-IsBlockStore}
use armored_witness_applet.Slot.{Slot, read as read_slot, check_and_write, ensure_open}
use armored_witness_applet.Slot.Settled.{IsInStep, IsSettled, Spares, Lands}
use armored_witness_applet.Slots.{open_slot, num_slots}
use armored_witness_applet.Persistence.{World, lookup, open_at, read_at, check_and_write_at}
use armored_witness_applet.Persistence.Directory.{log_slot, init, mark, unused, free_list}
use armored_witness_applet.Persistence.Checkpoints.{
  slot_of, latest, update, cut_prefix, marshal_checkpoint, unmarshal_checkpoint,
}
use armored_witness_applet.Persistence.Durable.{update-latest-init, update-IsServed}
use armored_witness_applet.Persistence.Served.{IsServed, started}
use armored_witness_applet.Slots.LaidAgain.{laid_again}
use armored_witness_applet.Tests.{digest, limit, empty_block, payload, new_journal}
use armored_witness_applet.Tests.Logs.{map_codec, to_payload}

abbrev pub map_entry : Entry
map_entry = record {
  magic = magic0;
  revision = 1;
  data_len = 1;
  data_sha256 = replicate 32 7;
  bytes = 7 ∷ [];
}

abbrev pub map_block : List ℕ
map_block = encode map_entry ++ replicate 463 0

abbrev disk : Storage
disk = map_block ∷ empty_block ∷ empty_block ∷ empty_block ∷ empty_block ∷ empty_block ∷ []

disk-IsStorage : IsStorage 6 disk
unfolding put_uint32 put_uint64
disk-IsStorage = record { count = refl; sizes = sizes }
  where
    sizes : (i : ℕ) → i < 6 → length (content disk i) ≡ 512
    sizes zero h = refl
    sizes (suc zero) h = refl
    sizes (suc (suc zero)) h = refl
    sizes (suc (suc (suc zero))) h = refl
    sizes (suc (suc (suc (suc zero)))) h = refl
    sizes (suc (suc (suc (suc (suc zero))))) h = refl
    sizes (suc (suc (suc (suc (suc (suc i)))))) h = absurd (omega arith)

laws : IsBlockStore mem_dev 6 (IsStorage 6) content
laws = mem_dev-IsBlockStore 6 (omega arith)

abbrev pub map_journal : Journal
map_journal = record new_journal { current = map_entry; next_block = 1 }

abbrev pub log_journal : Journal
log_journal = record new_journal { start = 3; next_block = 3 }

abbrev pub map_slot : Slot
map_slot = record { start = 0; extent = 3; journal = some map_journal }

abbrev pub log_slot_open : Slot
log_slot_open = record { start = 3; extent = 3; journal = some log_journal }

abbrev pub two_slots : World Storage
two_slots = record {
  per = record {
    part = record { slots = map_slot ∷ log_slot_open ∷ [] };
    directory_slot = some 0;
    directory_write_token = 1;
    id_to_slot = ("a", 1) ∷ [];
    free_slots = [];
  };
  store = disk;
}

map_entry-Holds : Holds mem_dev content digest limit disk 0 1 map_entry
unfolding mem_dev
map_entry-Holds = record {
  sound = record {
    prefix = refl;
    revision_pos = omega arith;
    revision_lt = omega arith;
    counted = refl;
    data_len_lt = omega arith;
    allocated = omega arith;
    digest = refl;
    digest_size = refl;
  };
  covers = omega arith;
  stored = append-nil map_block;
}

map_block_next : Unreadable mem_dev digest limit disk 1
unfolding mem_dev read_blocks read_loop new_block_reader fill read read_full unmarshal_entry
map_block_next = (invalid_magic, refl)

pub three_blocks : 3 * mem_dev.block_size ≤ word
unfolding mem_dev
three_blocks = omega arith

pub block_max : max_data 512 3 ≡ max_data mem_dev.block_size 3
unfolding mem_dev
block_max = refl

abbrev map_slot-IsSettled : IsSettled mem_dev 6 content digest limit disk map_slot map_journal
map_slot-IsSettled = record {
  start = refl;
  extent = refl;
  inside = omega arith;
  fits = three_blocks;
  small = omega arith;
  max = block_max;
  written = record {
    base = 0;
    tail = 1;
    from = omega arith;
    skipped = λ i from to. absurd (omega arith);
    chain = one 1 map_entry-Holds refl;
    inside = omega arith;
    next = inl refl;
  };
  stops = inr (inl map_block_next);
}

log_blocks-Unreadable : (i : ℕ) → 3 ≤ i → i < 6 → Unreadable mem_dev digest limit disk i
unfolding mem_dev read_blocks read_loop new_block_reader fill read read_full unmarshal_entry
log_blocks-Unreadable (suc (suc (suc zero))) h l = (invalid_magic, refl)
log_blocks-Unreadable (suc (suc (suc (suc zero)))) h l = (invalid_magic, refl)
log_blocks-Unreadable (suc (suc (suc (suc (suc zero))))) h l = (invalid_magic, refl)
log_blocks-Unreadable zero h l = absurd (omega arith)
log_blocks-Unreadable (suc zero) h l = absurd (omega arith)
log_blocks-Unreadable (suc (suc zero)) h l = absurd (omega arith)
log_blocks-Unreadable (suc (suc (suc (suc (suc (suc i)))))) h l = absurd (omega arith)

log_slot-IsInStep : IsInStep mem_dev 6 content digest limit disk log_slot_open log_journal
unfolding mem_dev
log_slot-IsInStep = record {
  attached = refl;
  start = refl;
  extent = refl;
  placed = record {
    block_pos = omega arith;
    ends = refl;
    top_small = omega arith;
    extent_small = omega arith;
    next_from = omega arith;
    next_to = omega arith;
    room = omega arith;
  };
  inside = omega arith;
  fits = omega arith;
  max = refl;
  old = inr (record { none = log_blocks-Unreadable; current = refl; next = refl });
}

pub log_known : lookup "a" two_slots.per.id_to_slot ≡ some 1
unfolding lookup
log_known = refl

pub no_slot_left :
    free_list
      (num_slots two_slots.per.part)
      (mark (replicate (num_slots two_slots.per.part) false) two_slots.per.id_to_slot)
    ≡ ok []
unfolding free_list mark unused num_slots
no_slot_left = refl

abbrev two_slots-IsServed :
    IsServed mem_dev 6 content digest limit map_codec two_slots "a" 1 log_slot_open map_slot
      log_journal map_journal
two_slots-IsServed = record {
  known = log_known;
  there = refl;
  step = log_slot-IsInStep;
  directory = refl;
  settled = map_slot-IsSettled;
  decoded = refl;
  free = [];
  listed = no_slot_left;
  apart = inr (omega arith);
}

checkpoint-Accepts : Accepts digest limit log_journal (marshal_checkpoint payload)
unfolding marshal_checkpoint
checkpoint-Accepts = record {
  admitted = refl;
  revision = omega arith;
  allocated = omega arith;
  digest_size = refl;
}

log_place : write_block mem_dev.block_size log_journal 54 ≡ 3
unfolding mem_dev write_block
log_place = refl

log_slot-Lands :
    Lands mem_dev 6 content digest limit disk log_slot_open log_journal (marshal_checkpoint payload)
unfolding marshal_checkpoint update_journal write_entry finish_update write_block marshal_entry
    mem_dev write_blocks write_loop pad put_uint32 put_uint64 read_blocks read_loop new_block_reader
    fill read read_full unmarshal_entry
log_slot-Lands = record {
  forged = λ i from to. absurd (omega (arith, log_place));
  stops = inr (inl (invalid_magic, refl));
}

map_slot-Spares :
    Spares mem_dev 6 content digest limit disk
      (check_and_write mem_dev digest disk log_slot_open 0 (marshal_checkpoint payload)).2
      map_slot
      map_journal
      map_slot-IsSettled
unfolding marshal_checkpoint check_and_write update_journal write_entry finish_update write_block
    marshal_entry mem_dev write_blocks write_loop pad put_uint32 put_uint64 read_blocks read_loop
    new_block_reader fill read read_full unmarshal_entry
map_slot-Spares = record {
  forged = λ i from to. absurd (omega arith);
  stops = inr (inl (invalid_magic, refl));
}

log_updated : (update mem_dev digest limit map_codec "a" to_payload two_slots).0 ≡ ok tt
unfolding update slot_of log_slot lookup open_at open_slot ensure_open read_at read_slot
    unmarshal_checkpoint cut_prefix marshal_checkpoint check_and_write_at check_and_write
    update_journal write_entry finish_update write_block marshal_entry mem_dev write_blocks
    write_loop pad
log_updated = refl

directory-Spares :
    Spares mem_dev 6 content digest limit disk
      (update mem_dev digest limit map_codec "a" to_payload two_slots).1.store
      map_slot
      map_journal
      map_slot-IsSettled
unfolding update slot_of log_slot lookup open_at open_slot ensure_open read_at read_slot
    unmarshal_checkpoint cut_prefix marshal_checkpoint check_and_write_at check_and_write
    update_journal write_entry finish_update write_block marshal_entry mem_dev write_blocks
    write_loop pad
directory-Spares = map_slot-Spares

empty_checkpoint : unmarshal_checkpoint map_codec [] ≡ ok []
unfolding unmarshal_checkpoint cut_prefix
empty_checkpoint = refl

update-latest-init_example :
    let w = (update mem_dev digest limit map_codec "a" to_payload two_slots).1 in
    let (r, v) = init mem_dev digest limit map_codec (started (laid_again w.per.part) w.store) in
    (r ≡ ok tt) × ((latest mem_dev digest limit map_codec "a" v).0 ≡ ok payload)
update-latest-init_example =
    update-latest-init laws digest limit map_codec "a" to_payload two_slots disk-IsStorage 1
      log_slot_open map_slot log_journal map_journal two_slots-IsServed [] payload empty_checkpoint
      refl checkpoint-Accepts directory-Spares log_slot-Lands log_updated

update-IsServed_example :
    (x : Slot) × (j : Journal) × IsServed mem_dev 6 content digest limit map_codec
      (update mem_dev digest limit map_codec "a" to_payload two_slots).1
      "a"
      1
      x
      map_slot
      j
      map_journal
    × (current_data j ≡ (marshal_checkpoint payload, 1))
update-IsServed_example =
    update-IsServed laws digest limit map_codec "a" to_payload two_slots disk-IsStorage 1
      log_slot_open map_slot log_journal map_journal two_slots-IsServed [] payload empty_checkpoint
      refl checkpoint-Accepts directory-Spares log_slot-Lands log_updated
