-- ===== src/Journal.antt =====
-- trusted_applet/internal/storage/slots/journal.go: the data of a slot's journal.
-- Go's `uint` is 32 bits wide here, and each of its operations wraps by `% word`.
pub mod BlockReader
pub mod Filling
pub mod Reading
pub mod Record
pub mod RoundTrip
pub mod Open
pub mod Layout
pub mod Chain
pub mod Update
pub mod Space
pub mod Updating
pub mod Reopen
pub mod Blank
pub mod Durable
pub mod Recovery
pub mod Torn
use armored_witness_applet.Prelude.{
  ℕ, ◌+◌, ◌-◌, ◌%◌, ◌^◌, Bool, not, ◌||◌, List, [], ◌∷◌, ltb, length, replicate, word,
}

-- "TFJ0"
abbrev pub magic0 : List ℕ
magic0 = b'T' ∷ b'F' ∷ b'J' ∷ b'0' ∷ []

pub record Entry : Type 0 where
  pub magic : List ℕ
  pub revision : ℕ
  pub data_len : ℕ
  pub data_sha256 : List ℕ
  pub bytes : List ℕ

-- `var lastEntry entry`
abbrev pub zero_entry : Entry
zero_entry = record {
  magic = 0 ∷ 0 ∷ 0 ∷ 0 ∷ [];
  revision = 0;
  data_len = 0;
  data_sha256 = replicate 32 0;
  bytes = [];
}

abbrev pub entry_header_size : ℕ
entry_header_size = 4 + 4 + 8 + 32

abbrev pub min_entries : ℕ
min_entries = 3

-- The device is passed beside the journal, with the state of its storage.
pub record Journal : Type 0 where
  pub start : ℕ
  pub extent : ℕ
  pub current : Entry
  pub next_block : ℕ
  pub max_data_bytes : ℕ

abbrev pub size : Entry → ℕ
size e = entry_header_size + length e.bytes

-- `a - b` on `uint`
abbrev pub sub_word : ℕ → ℕ → ℕ
sub_word a b = (a + word - b) % word

-- `l > int(m)` for a length `l`: the conversion of a `uint` from 2^31 up is negative.
abbrev pub exceeds : ℕ → ℕ → Bool
exceeds l m = not (ltb m (2 ^ 31)) || ltb m l
