-- ===== src/Tests/Others.antt =====
-- Tests of an update beside another log: the storage of Tests/Torn, with a slot of one block between
-- the directory and the slot of the other log, on a device that stores the front of what is
-- written, and fails.
use mathlib.Core.Path.{subst}
use armored_witness_applet.Prelude.{
  ℕ, ◌<◌, ◌≤◌, ◌≡◌, ◌*◌, refl, sym, inl, inr, [], ◌∷◌, ◌++◌, put_uint32, put_uint64, some, false,
  arith, replicate, word,
}
use armored_witness_applet.Result.{ok, invalid_magic}
use armored_witness_applet.Journal.{Entry, Journal, zero_entry, magic0}
use armored_witness_applet.Journal.RoundTrip.{encode}
use armored_witness_applet.Journal.Open.{max_data}
use armored_witness_applet.Journal.BlockReader.{new_block_reader, fill, read, read_full}
use armored_witness_applet.Journal.Record.{unmarshal_entry, marshal_entry}
use armored_witness_applet.Journal.Chain.{Unreadable, one}
use armored_witness_applet.Journal.Update.{
  update as update_journal, write_block, write_entry, finish_update,
}
use armored_witness_applet.Journal.Updating.{Accepts}
use armored_witness_applet.MemDev.{Storage, mem_dev, read_blocks, read_loop}
use armored_witness_applet.MemDev.Loops.{content}
use armored_witness_applet.Slot.{Slot, read as read_slot, check_and_write, ensure_open}
use armored_witness_applet.Slot.Settled.{IsInStep, IsSettled, Spares}
use armored_witness_applet.Slots.{num_slots, open_slot}
use armored_witness_applet.Slots.LaidAgain.{laid_again}
use armored_witness_applet.Persistence.{
  Library, World, lookup, open_at, read_at, check_and_write_at,
}
use armored_witness_applet.Persistence.Directory.{log_slot, init, free_list, mark, unused}
use armored_witness_applet.Persistence.Checkpoints.{
  slot_of, latest, update, cut_prefix, marshal_checkpoint, unmarshal_checkpoint,
}
use armored_witness_applet.Persistence.Served.{IsServed, started}
use armored_witness_applet.Persistence.Durable.{update-others}
use armored_witness_applet.Tests.{limit, payload, empty_block}
use armored_witness_applet.Tests.Logs.{map_codec, to_payload}
use armored_witness_applet.Tests.Restart.{map_journal, map_block}
use armored_witness_applet.Tests.Torn.{
  torn_dev, tear_digest, disk, disk-IsStorage, laws, map_entry-Holds, behind_map, old_slot,
  old_journal, old_entry, old_slot-IsSettled, old_block,
}

abbrev two_logs : Library
two_logs = record map_codec { unmarshal_map = λ b m. some (("a", 1) ∷ ("b", 2) ∷ []) }

abbrev short_map : Journal
short_map = record map_journal { extent = 2; max_data_bytes = max_data 512 2 }

abbrev short_slot : Slot
short_slot = record { start = 0; extent = 2; journal = some short_map }

abbrev one_block : Journal
one_block = record {
  start = 2;
  extent = 1;
  current = zero_entry;
  next_block = 2;
  max_data_bytes = max_data 512 1;
}

abbrev one_slot : Slot
one_slot = record { start = 2; extent = 1; journal = some one_block }

abbrev world : World Storage
world = record {
  per = record {
    part = record { slots = short_slot ∷ one_slot ∷ old_slot ∷ [] };
    directory_slot = some 0;
    directory_write_token = 1;
    id_to_slot = ("a", 1) ∷ ("b", 2) ∷ [];
    free_slots = [];
  };
  store = disk;
}

two_blocks : 2 * torn_dev.block_size ≤ word
unfolding mem_dev
two_blocks = omega arith

short_max : max_data 512 2 ≡ max_data torn_dev.block_size 2
unfolding mem_dev
short_max = refl

abbrev short_slot-IsSettled :
    IsSettled torn_dev 6 content tear_digest limit disk short_slot short_map
short_slot-IsSettled = record {
  start = refl;
  extent = refl;
  inside = omega arith;
  fits = two_blocks;
  small = omega arith;
  max = short_max;
  written = record {
    base = 0;
    tail = 1;
    from = omega arith;
    skipped = λ i from to. absurd (omega arith);
    chain = one 1 map_entry-Holds refl;
    inside = omega arith;
    next = inl refl;
  };
  stops = inr (inl behind_map);
}

block_two : Unreadable torn_dev tear_digest limit disk 2
unfolding mem_dev read_blocks read_loop new_block_reader fill read read_full unmarshal_entry
block_two = (invalid_magic, refl)

only_block : (i : ℕ) → 2 ≤ i → i < 3 → Unreadable torn_dev tear_digest limit disk i
only_block i from to = subst (Unreadable torn_dev tear_digest limit disk) (omega arith) block_two

one_slot-IsInStep : IsInStep torn_dev 6 content tear_digest limit disk one_slot one_block
unfolding mem_dev
one_slot-IsInStep = record {
  attached = refl;
  start = refl;
  extent = refl;
  placed = record {
    block_pos = omega arith;
    ends = refl;
    top_small = omega arith;
    extent_small = omega arith;
    next_from = omega arith;
    next_to = omega arith;
    room = omega arith;
  };
  inside = omega arith;
  fits = omega arith;
  max = refl;
  old = inr (record { none = only_block; current = refl; next = refl });
}

first_known : lookup "a" world.per.id_to_slot ≡ some 1
unfolding lookup
first_known = refl

second_known : lookup "b" world.per.id_to_slot ≡ some 2
unfolding lookup
second_known = refl

no_slot_left :
    free_list
      (num_slots world.per.part)
      (mark (replicate (num_slots world.per.part) false) world.per.id_to_slot)
    ≡ ok []
unfolding free_list mark unused num_slots
no_slot_left = refl

abbrev world-IsServed :
    IsServed torn_dev 6 content tear_digest limit two_logs world "a" 1 one_slot short_slot one_block
      short_map
world-IsServed = record {
  known = first_known;
  there = refl;
  step = one_slot-IsInStep;
  directory = refl;
  settled = short_slot-IsSettled;
  decoded = refl;
  free = [];
  listed = no_slot_left;
  apart = inr (omega arith);
}

payload-Accepts : Accepts tear_digest limit one_block (marshal_checkpoint payload)
unfolding marshal_checkpoint
payload-Accepts = record {
  admitted = refl;
  revision = omega arith;
  allocated = omega arith;
  digest_size = refl;
}

abbrev torn_entry : Entry
torn_entry = record {
  magic = magic0;
  revision = 1;
  data_len = 6;
  data_sha256 = replicate 32 7;
  bytes = 1 ∷ b'R' ∷ b'A' ∷ b'W' ∷ 0 ∷ 0 ∷ [];
}

abbrev torn_disk : Storage
torn_disk =
    map_block
    ∷ empty_block
    ∷ (encode torn_entry ++ replicate 458 0)
    ∷ old_block
    ∷ empty_block
    ∷ empty_block
    ∷ []

torn_storage : (update torn_dev tear_digest limit two_logs "a" to_payload world).1.store ≡ torn_disk
unfolding update slot_of log_slot lookup open_at open_slot ensure_open read_at read_slot
    unmarshal_checkpoint cut_prefix marshal_checkpoint check_and_write_at check_and_write
    update_journal write_entry finish_update write_block marshal_entry mem_dev put_uint32 put_uint64
torn_storage = refl

still_behind_map : Unreadable torn_dev tear_digest limit torn_disk 1
unfolding mem_dev read_blocks read_loop new_block_reader fill read read_full unmarshal_entry
still_behind_map = (invalid_magic, refl)

still_behind_old : Unreadable torn_dev tear_digest limit torn_disk 4
unfolding mem_dev read_blocks read_loop new_block_reader fill read read_full unmarshal_entry
still_behind_old = (invalid_magic, refl)

empty_checkpoint : unmarshal_checkpoint two_logs [] ≡ ok []
unfolding unmarshal_checkpoint cut_prefix
empty_checkpoint = refl

stored_checkpoint : old_entry.bytes ≡ marshal_checkpoint payload
unfolding marshal_checkpoint
stored_checkpoint = refl

update-others_example :
    let w = (update torn_dev tear_digest limit two_logs "a" to_payload world).1 in
    let (r, v) =
      init torn_dev tear_digest limit two_logs (started (laid_again w.per.part) w.store) in
    (r ≡ ok tt) × ((latest torn_dev tear_digest limit two_logs "b" v).0 ≡ ok payload)
update-others_example =
    update-others laws tear_digest limit two_logs "a" to_payload world disk-IsStorage 1 one_slot
      short_slot one_block short_map world-IsServed [] empty_checkpoint
      (λ new e.
        let made : payload ≡ new = cc e in
        subst (λ b. Accepts tear_digest limit one_block (marshal_checkpoint b)) made
          payload-Accepts)
      (subst
        (λ s.
          Spares torn_dev 6 content tear_digest limit disk s short_slot short_map
            short_slot-IsSettled)
        (sym torn_storage)
        (record {
          forged = λ i from to u. absurd (omega (arith, from, to));
          stops = inr (inl still_behind_map);
        }))
      "b" 2 old_slot old_journal payload second_known refl (inl (omega arith)) old_slot-IsSettled
      stored_checkpoint
      (subst
        (λ s.
          Spares torn_dev 6 content tear_digest limit disk s old_slot old_journal
            old_slot-IsSettled)
        (sym torn_storage)
        (record {
          forged = λ i from to u. absurd (omega (arith, from, to));
          stops = inr (inl still_behind_old);
        }))
