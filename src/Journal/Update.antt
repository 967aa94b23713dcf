-- ===== src/Journal/Update.antt =====
-- trusted_applet/internal/storage/slots/journal.go: Data and Update.
use armored_witness_applet.Prelude.{ℕ, ◌+◌, ◌-◌, ◌*◌, ◌%◌, List, ltb, if◌then◌else◌, length, word}
use armored_witness_applet.Result.{
  Result, ok, err, panic, out_of_fuel, too_large, marshal_failed, write_blocks_failed,
}
use armored_witness_applet.Device.{Device}
use armored_witness_applet.Journal.{Entry, Journal, magic0, size, exceeds}
use armored_witness_applet.Journal.Record.{marshal_entry}

-- `Data`
unfoldable pub current_data : Journal → List ℕ × ℕ
current_data j = (j.current.bytes, j.current.revision)

-- the record that `Update` makes
abbrev pub next_entry : (List ℕ → List ℕ) → Journal → List ℕ → Entry
next_entry sha256 j bytes = record {
  magic = magic0;
  revision = (j.current.revision + 1) % word;
  data_len = length bytes;
  data_sha256 = sha256 bytes;
  bytes = bytes;
}

-- the block that a record of `n` bytes is written at: the start, if it does not fit behind the last
unfoldable pub write_block : ℕ → Journal → ℕ → ℕ
write_block block_size j n =
    if ltb ((j.start + j.extent + word - j.next_block) % word * block_size % word) n
    then j.start
    else j.next_block

module _ {S : Type 0} (dev : Device S) (sha256 : List ℕ → List ℕ) where
  -- what `Update` does with the outcome of the write
  unfoldable pub finish_update : Journal → Entry → Result ℕ × S → Result (Unit {0}) × Journal × S
  finish_update j e (ok n, s) =
      (ok tt, record j { next_block = (j.next_block + n) % word; current = e }, s)
  finish_update j e (err x, s) = (err write_blocks_failed, j, s)
  finish_update j e (panic, s) = (panic, j, s)
  finish_update j e (out_of_fuel, s) = (out_of_fuel, j, s)

  unfoldable pub write_entry :
      S → Journal → Entry → Result (List ℕ) → Result (Unit {0}) × Journal × S
  write_entry s j e (ok buf) = finish_update j e (dev.write_blocks s j.next_block buf)
  write_entry s j e _ = (err marshal_failed, j, s)

  unfoldable pub update : S → Journal → List ℕ → Result (Unit {0}) × Journal × S
  update s j bytes =
      if exceeds (length bytes) j.max_data_bytes
      then (err too_large, j, s)
      else let e = next_entry sha256 j bytes in
        write_entry s (record j { next_block = write_block dev.block_size j (size e) }) e
          (marshal_entry sha256 e)
