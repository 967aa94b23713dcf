-- ===== src/Tests.antt =====
-- The example that the tests share: a journal of three blocks of 512 bytes on a device in memory.
pub mod Journals
pub mod Partitions
pub mod Logs
pub mod Restart
pub mod Torn
pub mod Recovered
pub mod Fresh
pub mod Others
pub mod Transfers
pub mod Firmware
pub mod Network
pub mod Wire
pub mod Identity
pub mod Updates
use armored_witness_applet.Prelude.{
  ℕ, zero, suc, ◌+◌, ◌<◌, ◌≤◌, ◌≡◌, refl, List, [], ◌∷◌, ◌++◌, arith, length, replicate,
}
use armored_witness_applet.Result.{ok, err, invalid_magic}
use armored_witness_applet.Device.Laws.{IsBlockStore}
use armored_witness_applet.Journal.{Entry, Journal, magic0, zero_entry}
use armored_witness_applet.Journal.Open.{max_data}
use armored_witness_applet.Journal.BlockReader.{new_block_reader, fill, read, read_full}
use armored_witness_applet.Journal.Record.{unmarshal_entry}
use armored_witness_applet.Journal.RoundTrip.{encode, IsSound}
use armored_witness_applet.Journal.Layout.{Holds}
use armored_witness_applet.Journal.Chain.{Unreadable}
use armored_witness_applet.Journal.Space.{IsPlaced}
use armored_witness_applet.Journal.Updating.{Accepts}
use armored_witness_applet.Journal.Reopen.{IsBlank}
use armored_witness_applet.MemDev.{Storage, mem_dev, read_blocks, read_loop}
use armored_witness_applet.MemDev.Loops.{content, IsStorage}
use armored_witness_applet.MemDev.Laws.{mem_dev-IsBlockStore}

-- A digest in place of SHA-256, and the most bytes that `make` gives.
abbrev pub digest : List ℕ → List ℕ
digest _ = replicate 32 7

abbrev pub limit : ℕ
limit = 1000

abbrev pub empty_block : List ℕ
empty_block = replicate 512 0

abbrev pub empty_disk : Storage
empty_disk = empty_block ∷ empty_block ∷ empty_block ∷ []

abbrev pub payload : List ℕ
payload = 5 ∷ 6 ∷ []

pub empty_disk-IsStorage : IsStorage 3 empty_disk
empty_disk-IsStorage = record { count = refl; sizes = sizes }
  where
    sizes : (i : ℕ) → i < 3 → length (content empty_disk i) ≡ 512
    sizes zero h = refl
    sizes (suc zero) h = refl
    sizes (suc (suc zero)) h = refl
    sizes (suc (suc (suc i))) h = absurd (omega arith)

pub disk_laws : IsBlockStore mem_dev 3 (IsStorage 3) content
disk_laws = mem_dev-IsBlockStore 3 (omega arith)

abbrev pub new_journal : Journal
new_journal = record {
  start = 0;
  extent = 3;
  current = zero_entry;
  next_block = 0;
  max_data_bytes = max_data 512 3;
}

pub new_journal-IsPlaced : IsPlaced mem_dev.block_size 3 new_journal
unfolding mem_dev
new_journal-IsPlaced = record {
  block_pos = omega arith;
  ends = refl;
  top_small = omega arith;
  extent_small = omega arith;
  next_from = omega arith;
  next_to = omega arith;
  room = omega arith;
}

pub new_journal-Accepts : Accepts digest limit new_journal payload
new_journal-Accepts = record {
  admitted = refl;
  revision = omega arith;
  allocated = omega arith;
  digest_size = refl;
}

pub empty_disk-Unreadable : (i : ℕ) → i < 3 → Unreadable mem_dev digest limit empty_disk i
unfolding mem_dev read_blocks read_loop new_block_reader fill read read_full unmarshal_entry
empty_disk-Unreadable zero h = (invalid_magic, refl)
empty_disk-Unreadable (suc zero) h = (invalid_magic, refl)
empty_disk-Unreadable (suc (suc zero)) h = (invalid_magic, refl)
empty_disk-Unreadable (suc (suc (suc i))) h = absurd (omega arith)

pub new_journal-IsBlank : IsBlank mem_dev content digest limit 3 empty_disk new_journal
new_journal-IsBlank = record {
  none = λ i from to. empty_disk-Unreadable i to;
  current = refl;
  next = refl;
}
