-- ===== src/Slot.antt =====
-- trusted_applet/internal/storage/slots/slots.go: Slot.
pub mod Versions
pub mod Settled
pub mod Reopened
use armored_witness_applet.Prelude.{
  ℕ, ◌*◌, ◌%◌, List, Option, none, some, ◌==◌, if◌then◌else◌, replicate, word,
}
use armored_witness_applet.Result.{
  Result, ok, err, panic, out_of_fuel, open_journal_failed, erase_failed, invalid_token,
}
use armored_witness_applet.Device.{Device}
use armored_witness_applet.Journal.{Journal}
use armored_witness_applet.Journal.Open.{open_journal}
use armored_witness_applet.Journal.Update.{update}

-- The journal is `none` (Go's nil) until the slot is opened.
pub record Slot : Type 0 where
  pub start : ℕ
  pub extent : ℕ
  pub journal : Option Journal

-- `Read`: the data and the token. A slot with no journal is a nil pointer.
unfoldable pub read : Slot → Result (List ℕ × ℕ)
read x = elim x.journal [ none ↦ panic | some j ↦ ok (j.current.bytes, j.current.revision) ]

module _ {S : Type 0} (dev : Device S) (sha256 : List ℕ → List ℕ) (max_alloc : ℕ) where
  abbrev attached : Slot → Result Journal → Result (Unit {0}) × Slot
  attached x (ok j) = (ok tt, record x { journal = some j })
  attached x (err e) = (err open_journal_failed, x)
  attached x panic = (panic, x)
  attached x out_of_fuel = (out_of_fuel, x)

  -- `Open` of a slot
  unfoldable pub ensure_open : S → Slot → Result (Unit {0}) × Slot
  ensure_open s x = elim x.journal [
    | some j ↦ (ok tt, x)
    | none ↦ attached x (open_journal dev sha256 max_alloc s x.start x.extent)
  ]

module _ {S : Type 0} (dev : Device S) where
  abbrev erased : Slot → Result ℕ × S → Result (Unit {0}) × Slot × S
  erased x (ok n, s) = (ok tt, x, s)
  erased x (err e, s) = (err erase_failed, x, s)
  erased x (panic, s) = (panic, x, s)
  erased x (out_of_fuel, s) = (out_of_fuel, x, s)

  -- `eraseSlot`: the journal is dropped, and the blocks are written with zeroes
  unfoldable pub erase_slot : S → Slot → Result (Unit {0}) × Slot × S
  erase_slot s x =
      erased (record x { journal = none })
        (dev.write_blocks s x.start (replicate (x.extent * dev.block_size % word) 0))

module _ {S : Type 0} (dev : Device S) (sha256 : List ℕ → List ℕ) where
  -- `Write`
  unfoldable pub write : S → Slot → List ℕ → Result (Unit {0}) × Slot × S
  write s x p = elim x.journal [
    | none ↦ (panic, x, s)
    | some j ↦
        (let (r, j', s') = update dev sha256 s j p in (r, record x { journal = some j' }, s'))
  ]

  -- `CheckAndWrite`
  unfoldable pub check_and_write : S → Slot → ℕ → List ℕ → Result (Unit {0}) × Slot × S
  check_and_write s x token p = elim x.journal [
    | none ↦ (panic, x, s)
    | some j ↦
        (if j.current.revision == token
          then (let (r, j', s') = update dev sha256 s j p in
              (r, record x { journal = some j' }, s'))
          else (err invalid_token, x, s))
  ]
