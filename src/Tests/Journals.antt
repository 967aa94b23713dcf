-- ===== src/Tests/Journals.antt =====
-- Tests of the journal: an update, a restart, and a write that fails.
use mathlib.Core.Path.{subst}
use mathlib.Core.List.{append-nil}
use armored_witness_applet.Prelude.{
  sym, ℕ, zero, suc, ◌+◌, ◌<◌, ◌≤◌, ◌≡◌, refl, inl, inr, List, [], ◌∷◌, ◌++◌, arith, length,
  replicate, word, ◌*◌, put_uint32, put_uint64, ◌%◌,
}
use armored_witness_applet.Result.{ok, err, invalid_magic, syscall_failed, write_blocks_failed}
use armored_witness_applet.Device.{Device}
use armored_witness_applet.Device.Laws.{IsBlockStore}
use armored_witness_applet.Journal.{Entry, Journal, magic0}
use armored_witness_applet.Journal.Open.{max_data, open_journal}
use armored_witness_applet.Journal.BlockReader.{Reader, new_block_reader, fill, read, read_full}
use armored_witness_applet.Journal.Record.{unmarshal_entry, marshal_entry}
use armored_witness_applet.Journal.RoundTrip.{encode}
use armored_witness_applet.Journal.Layout.{Holds, unmarshal-Holds}
use armored_witness_applet.Journal.Chain.{Unreadable, one}
use armored_witness_applet.Journal.Space.{IsPlaced, blocks, wrapped_overlaps}
use armored_witness_applet.Journal.Update.{
  update, write_block, write_entry, finish_update, current_data,
}
use armored_witness_applet.Journal.Updating.{Accepts}
use armored_witness_applet.Journal.Reopen.{IsWritten, Stops, rewound}
use armored_witness_applet.Journal.Durable.{open_journal-update}
use armored_witness_applet.Journal.Recovery.{open_journal-update_failed}
use armored_witness_applet.MemDev.{
  Storage, mem_dev, read_blocks, read_loop, write_blocks, write_loop, pad,
}
use armored_witness_applet.MemDev.Loops.{content, IsStorage}
use armored_witness_applet.Tests.{
  digest, limit, empty_block, empty_disk, payload, empty_disk-IsStorage, disk_laws, new_journal,
  new_journal-IsPlaced, new_journal-Accepts, new_journal-IsBlank,
}

first_update : (update mem_dev digest empty_disk new_journal payload).0 ≡ ok tt
unfolding update write_entry finish_update write_block marshal_entry mem_dev write_blocks write_loop
    pad
first_update = refl

first_stop :
    Stops mem_dev content digest limit 3
      (update mem_dev digest empty_disk new_journal payload).2
      (update mem_dev digest empty_disk new_journal payload).1.next_block
      1
unfolding update write_entry finish_update write_block marshal_entry mem_dev write_blocks write_loop
    pad put_uint32 put_uint64 read_blocks read_loop new_block_reader fill read read_full
    unmarshal_entry
first_stop = inr (inl (invalid_magic, refl))

three_blocks : 3 * mem_dev.block_size ≤ word
unfolding mem_dev
three_blocks = omega arith

first_place : write_block mem_dev.block_size new_journal 50 ≡ 0
unfolding mem_dev write_block
first_place = refl

open_journal-update_example :
    let (_, j, s) = update mem_dev digest empty_disk new_journal payload in
    (open_journal mem_dev digest limit s 0 3 ≡ ok (rewound 3 j)) × (current_data j ≡ (payload, 1))
unfolding mem_dev
open_journal-update_example =
    open_journal-update disk_laws digest limit 3 (omega arith) empty_disk empty_disk-IsStorage
      new_journal new_journal-IsPlaced payload new_journal-Accepts three_blocks refl
      (inr new_journal-IsBlank) (λ i from to. absurd (omega (arith, first_place))) first_stop
      first_update

-- A device whose writes fail, behind a journal whose one record is in its last block.
abbrev pub stuck_dev : Device Storage
stuck_dev = record mem_dev { write_blocks = λ st lba b. (err syscall_failed, st) }

abbrev last_entry : Entry
last_entry = record {
  magic = magic0;
  revision = 1;
  data_len = 2;
  data_sha256 = replicate 32 7;
  bytes = payload;
}

abbrev last_block : List ℕ
last_block = encode last_entry ++ replicate 462 0

abbrev full_disk : Storage
full_disk = empty_block ∷ empty_block ∷ last_block ∷ []

abbrev full_journal : Journal
full_journal = record new_journal { current = last_entry; next_block = 3 }

full_disk-IsStorage : IsStorage 3 full_disk
unfolding put_uint32 put_uint64
full_disk-IsStorage = record { count = refl; sizes = sizes }
  where
    sizes : (i : ℕ) → i < 3 → length (content full_disk i) ≡ 512
    sizes zero h = refl
    sizes (suc zero) h = refl
    sizes (suc (suc zero)) h = refl
    sizes (suc (suc (suc i))) h = absurd (omega arith)

stuck_laws : IsBlockStore stuck_dev 3 (IsStorage 3) content
unfolding mem_dev
stuck_laws = record {
  positive = disk_laws.positive;
  length-block = disk_laws.length-block;
  read_ok = disk_laws.read_ok;
  read_past = disk_laws.read_past;
  write_valid = λ s lba b n v some c h. v;
  write_ok = λ s lba b n m v done some c h. cc;
  write_frame = λ s lba b n i v some c h apart inside. refl;
}

full_journal-IsPlaced : IsPlaced stuck_dev.block_size 3 full_journal
unfolding mem_dev
full_journal-IsPlaced = record {
  block_pos = omega arith;
  ends = refl;
  top_small = omega arith;
  extent_small = omega arith;
  next_from = omega arith;
  next_to = omega arith;
  room = omega arith;
}

full_journal-Accepts : Accepts digest limit full_journal payload
full_journal-Accepts = record {
  admitted = refl;
  revision = omega arith;
  allocated = omega arith;
  digest_size = refl;
}

full_disk-Unreadable : (i : ℕ) → i < 2 → Unreadable stuck_dev digest limit full_disk i
unfolding mem_dev read_blocks read_loop new_block_reader fill read read_full unmarshal_entry
full_disk-Unreadable zero h = (invalid_magic, refl)
full_disk-Unreadable (suc zero) h = (invalid_magic, refl)
full_disk-Unreadable (suc (suc i)) h = absurd (omega arith)

last_entry-Holds : Holds stuck_dev content digest limit full_disk 2 1 last_entry
unfolding mem_dev
last_entry-Holds = record {
  sound = record {
    prefix = refl;
    revision_pos = omega arith;
    revision_lt = omega arith;
    counted = refl;
    data_len_lt = omega arith;
    allocated = omega arith;
    digest = refl;
    digest_size = refl;
  };
  covers = omega arith;
  stored = append-nil last_block;
}

abbrev full_disk-IsWritten : IsWritten stuck_dev content digest limit 3 full_disk full_journal
full_disk-IsWritten = record {
  base = 2;
  tail = 3;
  from = omega arith;
  skipped = λ i from to. full_disk-Unreadable i to;
  chain = one 1 last_entry-Holds refl;
  inside = omega arith;
  next = inl refl;
}

stuck_update : (update stuck_dev digest full_disk full_journal payload).0 ≡ err write_blocks_failed
unfolding update write_entry finish_update write_block marshal_entry mem_dev
stuck_update = refl

stuck_storage : (update stuck_dev digest full_disk full_journal payload).2 ≡ full_disk
unfolding update write_entry finish_update write_block marshal_entry mem_dev
stuck_storage = refl

full_place : write_block stuck_dev.block_size full_journal 50 ≡ 0
unfolding mem_dev write_block
full_place = refl

open_journal-update_failed_example :
    let (_, j, s) = update stuck_dev digest full_disk full_journal payload in
    (open_journal stuck_dev digest limit s 0 3 ≡ ok (rewound 3 full_journal))
    × (j.current ≡ last_entry)
unfolding mem_dev
open_journal-update_failed_example =
    open_journal-update_failed stuck_laws digest limit 3 (omega arith) full_disk full_disk-IsStorage
      full_journal full_journal-IsPlaced payload full_journal-Accepts three_blocks refl
      (omega arith) full_disk-IsWritten (omega arith) (omega (arith, full_place)) (cc stuck_update)
      (λ i from to.
        subst (λ s. Unreadable stuck_dev digest limit s i) (sym stuck_storage)
          (full_disk-Unreadable i to))
      (inl refl)

unmarshal-Holds_example :
    (br : Reader) × (unmarshal_entry stuck_dev digest limit full_disk (new_block_reader stuck_dev 2)
      ≡ ok (last_entry, br))
    × (br.pos ≡ (2 * stuck_dev.block_size + 50) % word)
unmarshal-Holds_example =
    unmarshal-Holds stuck_laws digest limit 3 full_disk full_disk-IsStorage (omega arith)
      three_blocks 2 1 last_entry last_entry-Holds (omega arith)

-- A journal of four blocks, whose record of two blocks is the last.
abbrev four_blocks : Journal
four_blocks = record new_journal { extent = 4; next_block = 3; max_data_bytes = max_data 512 4 }

four_blocks-IsPlaced : IsPlaced 512 4 four_blocks
four_blocks-IsPlaced = record {
  block_pos = omega arith;
  ends = refl;
  top_small = omega arith;
  extent_small = omega arith;
  next_from = omega arith;
  next_to = omega arith;
  room = omega arith;
}

wrapped_overlaps_example :
    (513 ≤ four_blocks.max_data_bytes + 48)
    × (write_block 512 four_blocks 513 ≡ 0)
    × (0 + blocks 512 513 ≡ 2)
wrapped_overlaps_example =
    wrapped_overlaps 512 4 1 four_blocks four_blocks-IsPlaced refl (omega arith) refl refl
