-- ===== src/Journal/Open.antt =====
-- trusted_applet/internal/storage/slots/journal.go: OpenJournal and the scan of `init`.
use armored_witness_applet.Prelude.{
  ℕ, zero, suc, ◌+◌, ◌*◌, ◌/◌, ◌%◌, true, false, List, ltb, leb, if◌then◌else◌, word,
}
use armored_witness_applet.Result.{Error, Result, ok, err, panic, out_of_fuel, ◌>>=◌, same_revision}
use armored_witness_applet.Device.{Device}
use armored_witness_applet.Journal.{
  Entry, Journal, zero_entry, min_entries, entry_header_size, sub_word,
}
use armored_witness_applet.Journal.BlockReader.{Reader, new_block_reader}
use armored_witness_applet.Journal.Record.{unmarshal_entry}

-- the variables of the loop of `init`: `lba`, `lastEntry`, `nextWriteLBA`
pub record Scan : Type 0 where
  pub lba : ℕ
  pub last : Entry
  pub next_write : ℕ

-- how a round of the loop ends: `continue`, `break`, or a return of the function
pub data Round : Type 0 where
  continue : Scan → Round
  break : Scan → Round
  fail : Error → Round
  crash : Round
  stuck : Round

-- `maxDataBytes` of a journal of `extent` blocks
abbrev pub max_data : ℕ → ℕ → ℕ
max_data block_size extent = sub_word (extent * block_size % word / min_entries) entry_header_size

module _ {S : Type 0} (dev : Device S) (sha256 : List ℕ → List ℕ) (max_alloc : ℕ) where
  -- what a round does once the record at `c.lba` was read
  unfoldable pub scan_entry : Scan → Result (Entry × Reader) → Round
  scan_entry c (err x) =
      if ltb 0 c.last.revision then break c else continue (record c { lba = (c.lba + 1) % word })
  scan_entry c (ok (e, br)) =
      let lba' = (sub_word br.pos 1 / dev.block_size + 1) % word in
      if ltb c.last.revision e.revision
      then continue (record { lba = lba'; last = e; next_write = lba' })
      else if ltb e.revision c.last.revision
      then break (record c { next_write = c.lba })
      else fail same_revision
  scan_entry c panic = crash
  scan_entry c out_of_fuel = stuck

  unfoldable pub scan_round : S → Scan → Round
  scan_round s c =
      scan_entry c (unmarshal_entry dev sha256 max_alloc s (new_block_reader dev c.lba))

  -- The loop of `init` up to block `end`. Each round goes on by a block or more.
  unfoldable pub scan : ℕ → S → ℕ → Scan → Result Scan
  scan zero s end c = if ltb c.lba end then out_of_fuel else ok c
  scan (suc fuel) s end c = elim (ltb c.lba end) [
    | false ↦ ok c
    | true ↦ elim (scan_round s c) [
      | continue c' ↦ scan fuel s end c'
      | break c' ↦ ok c'
      | fail e ↦ err e
      | crash ↦ panic
      | stuck ↦ out_of_fuel
    ]
  ]

  unfoldable pub init : S → Journal → Result Journal
  init s j =
      let end = (j.start + j.extent) % word in
      scan j.extent s end (record { lba = j.start; last = zero_entry; next_write = j.start })
      >>= λ c. ok (record j {
        current = c.last;
        next_block = if leb end c.next_write then j.start else c.next_write;
      })

  unfoldable pub open_journal : S → ℕ → ℕ → Result Journal
  open_journal s start extent = init s (record {
    start = start;
    extent = extent;
    current = zero_entry;
    next_block = 0;
    max_data_bytes = max_data dev.block_size extent;
  })
