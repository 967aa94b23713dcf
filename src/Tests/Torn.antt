-- ===== src/Tests/Torn.antt =====
-- Tests of a restart after a write that was torn: two slots, each with one record, on a device that
-- stores the front of what is written, and fails.
use armored_witness_applet.Journal.Space.{IsPlaced}
use mathlib.Core.List.{append-nil}
use mathlib.Core.Path.{subst}
use armored_witness_applet.Prelude.{
  ℕ, ◌-◌, ◌+◌, ◌≢◌, ◌⊎◌, take, drop, set, get_or-set_ne, length-append, length-take, length-drop,
  bytes_equal, if◌then◌else◌, zero, suc, ◌<◌, ◌≤◌, ◌≡◌, refl, sym, inl, inr, List, [], ◌∷◌, ◌++◌,
  some, false, arith, length, replicate, put_uint32, put_uint64, word, ◌*◌,
}
use armored_witness_applet.Result.{Result, ok, err, syscall_failed, invalid_magic}
use armored_witness_applet.Device.{Device}
use armored_witness_applet.Device.Laws.{IsBlockStore}
use armored_witness_applet.Journal.{Entry, Journal, magic0, size}
use armored_witness_applet.Journal.BlockReader.{new_block_reader, fill, read, read_full}
use armored_witness_applet.Journal.Record.{unmarshal_entry, marshal_entry}
use armored_witness_applet.Journal.RoundTrip.{encode}
use armored_witness_applet.Journal.Layout.{Holds}
use armored_witness_applet.Journal.Torn.{IsTorn}
use armored_witness_applet.Journal.Chain.{Unreadable, one}
use armored_witness_applet.Journal.Update.{
  update as update_journal, write_block, write_entry, finish_update, next_entry,
}
use armored_witness_applet.Journal.Updating.{Accepts}
use armored_witness_applet.MemDev.{copy, Storage, mem_dev, read_blocks, read_loop}
use armored_witness_applet.MemDev.Loops.{content, IsStorage, set-IsStorage}
use armored_witness_applet.MemDev.Laws.{mem_dev-IsBlockStore}
use armored_witness_applet.Slot.{Slot, read as read_slot, check_and_write, ensure_open}
use armored_witness_applet.Slot.Settled.{IsSettled, Spares}
use armored_witness_applet.Slots.{open_slot, num_slots}
use armored_witness_applet.Persistence.{World, lookup, open_at, read_at, check_and_write_at}
use armored_witness_applet.Persistence.Directory.{log_slot, init, free_list, mark}
use armored_witness_applet.Persistence.Checkpoints.{
  slot_of, latest, update, cut_prefix, marshal_checkpoint, unmarshal_checkpoint,
}
use armored_witness_applet.Persistence.Served.{IsServed, started}
use armored_witness_applet.Slots.LaidAgain.{laid_again}
use armored_witness_applet.Persistence.Durable.{update_torn-latest-init}
use armored_witness_applet.Tests.{limit, empty_block, payload}
use armored_witness_applet.Tests.Logs.{map_codec}
use armored_witness_applet.Tests.Restart.{
  map_entry, map_block, map_journal, log_journal, map_slot, log_slot_open, two_slots, log_known,
  no_slot_left, three_blocks, block_max,
}

abbrev pub old_entry : Entry
old_entry = record {
  magic = magic0;
  revision = 1;
  data_len = 6;
  data_sha256 = replicate 32 7;
  bytes = 1 ∷ b'R' ∷ b'A' ∷ b'W' ∷ payload;
}

abbrev pub old_block : List ℕ
old_block = encode old_entry ++ replicate 458 0

abbrev pub disk : Storage
disk = map_block ∷ empty_block ∷ empty_block ∷ old_block ∷ empty_block ∷ empty_block ∷ []

pub disk-IsStorage : IsStorage 6 disk
unfolding put_uint32 put_uint64
disk-IsStorage = record { count = refl; sizes = sizes }
  where
    sizes : (i : ℕ) → i < 6 → length (content disk i) ≡ 512
    sizes zero h = refl
    sizes (suc zero) h = refl
    sizes (suc (suc zero)) h = refl
    sizes (suc (suc (suc zero))) h = refl
    sizes (suc (suc (suc (suc zero)))) h = refl
    sizes (suc (suc (suc (suc (suc zero))))) h = refl
    sizes (suc (suc (suc (suc (suc (suc i)))))) h = absurd (omega arith)

-- A device whose writes fail when 52 bytes are stored.
abbrev torn : List ℕ → List ℕ → List ℕ
torn old b = copy old (take 52 b)

abbrev pub torn_dev : Device Storage
torn_dev = record mem_dev {
  write_blocks = λ st lba b. (err syscall_failed, set st lba (torn (content st lba) b));
}

-- A digest that tells one checkpoint from all others.
abbrev pub tear_digest : List ℕ → List ℕ
tear_digest b = replicate 32 (if bytes_equal b (1 ∷ b'R' ∷ b'A' ∷ b'W' ∷ 8 ∷ []) then 8 else 7)

length-torn : (old b : List ℕ) → length old ≡ 512 → length (torn old b) ≡ 512
length-torn old b size = omega (
  arith,
  size,
  length-append (take (length old) (take 52 b)) (drop (length (take 52 b)) old),
  length-take (length old) (take 52 b),
  length-take 52 b,
  length-drop (length (take 52 b)) old,
)

outside : (lba n i : ℕ) → 0 < n → (i < lba) ⊎ (lba + n ≤ i) → lba ≢ i
outside lba n i pos (inl h) = λ e. omega (arith, e)
outside lba n i pos (inr h) = λ e. omega (arith, e)

pub laws : IsBlockStore torn_dev 6 (IsStorage 6) content
unfolding mem_dev
laws = record {
  positive = (mem_dev-IsBlockStore 6 (omega arith)).positive;
  length-block = (mem_dev-IsBlockStore 6 (omega arith)).length-block;
  read_ok = (mem_dev-IsBlockStore 6 (omega arith)).read_ok;
  read_past = (mem_dev-IsBlockStore 6 (omega arith)).read_past;
  write_valid = λ s lba b n v some c h.
      set-IsStorage 6 lba s (torn (content s lba) b) v (omega (arith, c))
        (length-torn (content s lba) b (v.sizes lba (omega (arith, c))));
  write_ok = λ s lba b n m v done some c h. cc;
  write_frame = λ s lba b n i v some c h apart inside.
      get_or-set_ne s lba i (torn (content s lba) b) [] (outside lba n i (omega (arith, c)) apart);
}

abbrev pub old_journal : Journal
old_journal = record log_journal { current = old_entry; next_block = 4 }

abbrev pub old_slot : Slot
old_slot = record log_slot_open { journal = some old_journal }

abbrev one_log : World Storage
one_log = record {
  per = record two_slots.per { part = record { slots = map_slot ∷ old_slot ∷ [] } };
  store = disk;
}

pub map_entry-Holds : Holds torn_dev content tear_digest limit disk 0 1 map_entry
unfolding mem_dev
map_entry-Holds = record {
  sound = record {
    prefix = refl;
    revision_pos = omega arith;
    revision_lt = omega arith;
    counted = refl;
    data_len_lt = omega arith;
    allocated = omega arith;
    digest = refl;
    digest_size = refl;
  };
  covers = omega arith;
  stored = append-nil map_block;
}

pub old_entry-Holds : Holds torn_dev content tear_digest limit disk 3 1 old_entry
unfolding mem_dev
old_entry-Holds = record {
  sound = record {
    prefix = refl;
    revision_pos = omega arith;
    revision_lt = omega arith;
    counted = refl;
    data_len_lt = omega arith;
    allocated = omega arith;
    digest = refl;
    digest_size = refl;
  };
  covers = omega arith;
  stored = append-nil old_block;
}

pub behind_map : Unreadable torn_dev tear_digest limit disk 1
unfolding mem_dev read_blocks read_loop new_block_reader fill read read_full unmarshal_entry
behind_map = (invalid_magic, refl)

pub behind_old : Unreadable torn_dev tear_digest limit disk 4
unfolding mem_dev read_blocks read_loop new_block_reader fill read read_full unmarshal_entry
behind_old = (invalid_magic, refl)

abbrev pub map_slot-IsSettled :
    IsSettled torn_dev 6 content tear_digest limit disk map_slot map_journal
map_slot-IsSettled = record {
  start = refl;
  extent = refl;
  inside = omega arith;
  fits = three_blocks;
  small = omega arith;
  max = block_max;
  written = record {
    base = 0;
    tail = 1;
    from = omega arith;
    skipped = λ i from to. absurd (omega arith);
    chain = one 1 map_entry-Holds refl;
    inside = omega arith;
    next = inl refl;
  };
  stops = inr (inl behind_map);
}

pub six_blocks : 6 * torn_dev.block_size ≤ word
unfolding mem_dev
six_blocks = omega arith

abbrev pub old_slot-IsSettled :
    IsSettled torn_dev 6 content tear_digest limit disk old_slot old_journal
old_slot-IsSettled = record {
  start = refl;
  extent = refl;
  inside = omega arith;
  fits = six_blocks;
  small = omega arith;
  max = block_max;
  written = record {
    base = 3;
    tail = 4;
    from = omega arith;
    skipped = λ i from to. absurd (omega arith);
    chain = one 1 old_entry-Holds refl;
    inside = omega arith;
    next = inl refl;
  };
  stops = inr (inl behind_old);
}

old_journal-IsPlaced : IsPlaced torn_dev.block_size 6 old_journal
unfolding mem_dev
old_journal-IsPlaced = record {
  block_pos = omega arith;
  ends = refl;
  top_small = omega arith;
  extent_small = omega arith;
  next_from = omega arith;
  next_to = omega arith;
  room = omega arith;
}

none_free :
    free_list
      (num_slots one_log.per.part)
      (mark (replicate (num_slots one_log.per.part) false) one_log.per.id_to_slot)
    ≡ ok []
unfolding num_slots
none_free = no_slot_left

abbrev one_log-IsServed :
    IsServed torn_dev 6 content tear_digest limit map_codec one_log "a" 1 old_slot map_slot
      old_journal map_journal
one_log-IsServed = record {
  known = log_known;
  there = refl;
  step = record {
    attached = refl;
    start = refl;
    extent = refl;
    placed = old_journal-IsPlaced;
    inside = omega arith;
    fits = six_blocks;
    max = block_max;
    old = inl old_slot-IsSettled.written;
  };
  directory = refl;
  settled = map_slot-IsSettled;
  decoded = refl;
  free = [];
  listed = none_free;
  apart = inr (omega arith);
}

abbrev other : List ℕ
other = 8 ∷ []

abbrev to_other : List ℕ → Result (List ℕ)
to_other cp = ok other

other-Accepts : Accepts tear_digest limit old_journal (marshal_checkpoint other)
unfolding marshal_checkpoint
other-Accepts = record {
  admitted = refl;
  revision = omega arith;
  allocated = omega arith;
  digest_size = refl;
}

-- What is left of the write: the header of the new record, and all but the last byte of its data.
abbrev arrived : List ℕ
arrived = 1 ∷ b'R' ∷ b'A' ∷ b'W' ∷ 0 ∷ []

abbrev torn_entry : Entry
torn_entry = record {
  magic = magic0;
  revision = 2;
  data_len = 5;
  data_sha256 = replicate 32 8;
  bytes = arrived;
}

abbrev torn_disk : Storage
torn_disk =
    map_block
    ∷ empty_block
    ∷ empty_block
    ∷ old_block
    ∷ (encode torn_entry ++ replicate 459 0)
    ∷ empty_block
    ∷ []

torn_storage :
    (update torn_dev tear_digest limit map_codec "a" to_other one_log).1.store ≡ torn_disk
unfolding update slot_of log_slot lookup open_at open_slot ensure_open read_at read_slot
    unmarshal_checkpoint cut_prefix marshal_checkpoint check_and_write_at check_and_write
    update_journal write_entry finish_update write_block marshal_entry mem_dev put_uint32 put_uint64
torn_storage = refl

still_behind_map : Unreadable torn_dev tear_digest limit torn_disk 1
unfolding mem_dev read_blocks read_loop new_block_reader fill read read_full unmarshal_entry
still_behind_map = (invalid_magic, refl)

old_record_fits :
    size (next_entry tear_digest old_journal (marshal_checkpoint other))
    ≤ (6 - 4) * torn_dev.block_size
unfolding mem_dev marshal_checkpoint
old_record_fits = omega arith

torn_disk-IsTorn :
    IsTorn content tear_digest torn_disk 4 6
      (next_entry tear_digest old_journal (marshal_checkpoint other))
unfolding marshal_checkpoint put_uint32 put_uint64
torn_disk-IsTorn = record {
  arrived = arrived;
  more = replicate 459 0 ++ empty_block;
  stored = refl;
  measure = refl;
  differs = λ e. cc;
  collision_free = λ e. absurd (cc e);
}

old_checkpoint : unmarshal_checkpoint map_codec old_entry.bytes ≡ ok payload
unfolding unmarshal_checkpoint cut_prefix
old_checkpoint = refl

stored_checkpoint : old_entry.bytes ≡ marshal_checkpoint payload
unfolding marshal_checkpoint
stored_checkpoint = refl

update_torn-latest-init_example :
    let w = (update torn_dev tear_digest limit map_codec "a" to_other one_log).1 in
    let (r, v) =
      init torn_dev tear_digest limit map_codec (started (laid_again w.per.part) w.store) in
    (r ≡ ok tt) × ((latest torn_dev tear_digest limit map_codec "a" v).0 ≡ ok payload)
update_torn-latest-init_example =
    update_torn-latest-init laws tear_digest limit map_codec "a" to_other one_log disk-IsStorage 1
      old_slot map_slot old_journal map_journal one_log-IsServed payload other old_checkpoint refl
      other-Accepts
      (subst
        (λ s.
          Spares torn_dev 6 content tear_digest limit disk s map_slot map_journal
            map_slot-IsSettled)
        (sym torn_storage)
        (record {
          forged = λ i from to u. absurd (omega (arith, from, to));
          stops = inr (inl still_behind_map);
        }))
      payload stored_checkpoint old_slot-IsSettled old_record_fits
      (λ i from to u. absurd (omega (arith, from, to)))
      (subst
        (λ s.
          IsTorn content tear_digest s 4 6
            (next_entry tear_digest old_journal (marshal_checkpoint other)))
        (sym torn_storage) torn_disk-IsTorn)
