-- ===== src/Journal/Torn.antt =====
-- trusted_applet/internal/storage/slots/journal.go: a record whose write was torn.
use mathlib.Core.Path.{subst}
use armored_witness_applet.Prelude.{ℕ, ◌-◌, ◌*◌, ◌≤◌, ◌≡◌, ◌≢◌, ◌∙◌, List, ◌++◌, length, word}
use armored_witness_applet.Result.{incorrect_sha256}
use armored_witness_applet.Device.{Device}
use armored_witness_applet.Device.Stream.{stream}
use armored_witness_applet.Device.Laws.{IsBlockStore}
use armored_witness_applet.Journal.{Entry}
use armored_witness_applet.Journal.BlockReader.{new_block_reader}
use armored_witness_applet.Journal.Filling.{Reads}
use armored_witness_applet.Journal.Reading.{new_block_reader_lem}
use armored_witness_applet.Journal.RoundTrip.{IsSound, encode, unmarshal_entry-torn}
use armored_witness_applet.Journal.Chain.{Unreadable}

-- The blocks from `lba` to `top` hold the header of the record of `e`, and behind it other data than
-- that of the record, with which it does not collide under SHA-256.
pub record IsTorn {S : Type 0} (block : S → ℕ → List ℕ) (sha256 : List ℕ → List ℕ) (s : S)
    (lba top : ℕ) (e : Entry) : Type 0 where
  pub arrived : List ℕ
  pub more : List ℕ
  pub stored : stream (block s) lba (top - lba) ≡ encode (record e { bytes = arrived }) ++ more
  pub measure : length arrived ≡ e.data_len
  pub differs : arrived ≢ e.bytes
  pub collision_free : sha256 arrived ≡ sha256 e.bytes → arrived ≡ e.bytes

module _ {S : Type 0} {dev : Device S} {capacity : ℕ} {Valid : S → Type 0} {block : S → ℕ → List ℕ}
    (laws : IsBlockStore dev capacity Valid block) (sha256 : List ℕ → List ℕ) (max_alloc : ℕ)
    (top : ℕ) (s : S) (valid : Valid s) (top_in : top ≤ capacity)
    (fits : top * dev.block_size ≤ word) where
  -- A torn record is refused for its digest.
  pub IsTorn-Unreadable :
      (lba : ℕ) (e : Entry)
      → lba ≤ top
      → IsSound sha256 max_alloc e
      → IsTorn block sha256 s lba top e
      → Unreadable dev sha256 max_alloc s lba
  IsTorn-Unreadable lba e le sound torn = (
    incorrect_sha256,
    unmarshal_entry-torn sha256 max_alloc laws top s valid top_in fits e torn.arrived
        (new_block_reader dev lba) torn.more sound torn.measure
        (λ same. torn.differs (torn.collision_free (same ∙ sound.digest)))
        (subst (Reads laws top s valid top_in fits (new_block_reader dev lba)) torn.stored
          (new_block_reader_lem laws top s valid top_in fits lba le)),
  )
