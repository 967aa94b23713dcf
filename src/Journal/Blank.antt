-- ===== src/Journal/Blank.antt =====
-- trusted_applet/internal/storage/slots/journal.go: OpenJournal of blocks that hold no record.
use armored_witness_applet.Prelude.{
  ℕ, ◌+◌, ◌*◌, ◌%◌, ◌≤◌, ◌<◌, ◌≡◌, refl, ap, ◌∙◌, List, arith, word, leb, ltb, false, if◌then◌else◌,
}
use armored_witness_applet.Result.{ok}
use armored_witness_applet.Device.{Device}
use armored_witness_applet.Device.Laws.{IsBlockStore}
use armored_witness_applet.Journal.{Journal, zero_entry}
use armored_witness_applet.Journal.Open.{scan, init, open_journal, max_data}
use armored_witness_applet.Journal.Chain.{Unreadable, scan-skips}
use armored_witness_applet.Journal.Space.{IsPlaced}

-- A journal with no record.
abbrev pub fresh : ℕ → ℕ → ℕ → Journal
fresh block_size start extent = record {
  start = start;
  extent = extent;
  current = zero_entry;
  next_block = start;
  max_data_bytes = max_data block_size extent;
}

-- Three records of the largest size fit in a journal that has the bytes of three headers.
pub max_data_lem :
    (bs extent : ℕ)
    → extent * bs < word
    → 144 ≤ extent * bs
    → 3 * (max_data bs extent + 48) ≤ extent * bs
max_data_lem bs extent fits room = omega arith

-- A journal with no record has its place, where its blocks have the bytes of three headers.
pub fresh-IsPlaced :
    (bs top start extent : ℕ)
    → 0 < bs
    → start + extent ≡ top
    → top < word
    → extent * bs < word
    → 144 ≤ extent * bs
    → IsPlaced bs top (fresh bs start extent)
fresh-IsPlaced bs top start extent some ends small fits room = record {
  block_pos = some;
  ends = ends;
  top_small = small;
  extent_small = fits;
  next_from = omega arith;
  next_to = omega arith;
  room = max_data_lem bs extent fits room;
}

same_branch : (b : ℕ) (top : ℕ) → (if leb top b then b else b) ≡ b
same_branch b top = ground arith

module _ {S : Type 0} {dev : Device S} {capacity : ℕ} {Valid : S → Type 0} {block : S → ℕ → List ℕ}
    (laws : IsBlockStore dev capacity Valid block) (sha256 : List ℕ → List ℕ) (max_alloc : ℕ)
    (top : ℕ) (s : S) (valid : Valid s) (top_in : top ≤ capacity)
    (fits : top * dev.block_size ≤ word) (small : top < word) where
  -- OpenJournal of blocks that hold no record returns a journal with none, that starts at its first
  -- block.
  pub open_journal-blank :
      (start extent : ℕ)
      → start + extent ≡ top
      → ((i : ℕ) → start ≤ i → i < top → Unreadable dev sha256 max_alloc s i)
      → open_journal dev sha256 max_alloc s start extent ≡ ok (fresh dev.block_size start extent)
  unfolding open_journal init scan
  open_journal-blank start extent ends none =
      let end : (start + extent) % word ≡ top = omega arith in
      let all : extent ≡ extent + 0 = omega arith in
      let past : ltb (start + extent) top ≡ false = ground arith in
      let scanned : scan dev sha256 max_alloc extent s top
            (record { lba = start; last = zero_entry; next_write = start })
          ≡ ok (record { lba = start + extent; last = zero_entry; next_write = start }) =
        ap
          (λ n.
            scan dev sha256 max_alloc n s top
              (record { lba = start; last = zero_entry; next_write = start }))
          all
        ∙ scan-skips laws sha256 max_alloc top s valid top_in fits small extent start start
            (omega arith) (λ i from to. none i from (omega arith)) 0
        ∙ rw past refl in
      rw (end, scanned)
        (ap (λ n. ok (record (fresh dev.block_size start extent) { next_block = n }))
          (same_branch start top))
