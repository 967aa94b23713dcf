-- ===== src/Journal/Layout.antt =====
-- trusted_applet/internal/storage/slots/journal.go: records on storage, and how the scan meets them.
use native.Mathlib.Nat.{div-eq_of_lt-le, add-mul, suc-mul, one-mul, zero-mul, add_assoc}
use mathlib.Core.Path.{subst}
use mathlib.Core.List.{append_assoc}
use armored_witness_applet.Prelude.{
  ℕ, zero, suc, ◌+◌, ◌-◌, ◌*◌, ◌/◌, ◌%◌, ◌≤◌, ◌<◌, ◌≡◌, ap, ◌∙◌, List, ◌++◌, arith, length,
  replicate, word, length-append, length-replicate,
}
use armored_witness_applet.Result.{ok}
use armored_witness_applet.Device.{Device}
use armored_witness_applet.Device.Stream.{stream, stream-append, length-stream}
use armored_witness_applet.Device.Laws.{IsBlockStore, Covers}
use armored_witness_applet.Journal.{Entry, size, sub_word}
use armored_witness_applet.Journal.BlockReader.{Reader, new_block_reader}
use armored_witness_applet.Journal.Filling.{Reads, Reads-pos}
use armored_witness_applet.Journal.Reading.{new_block_reader_lem}
use armored_witness_applet.Journal.Record.{unmarshal_entry}
use armored_witness_applet.Journal.RoundTrip.{IsSound, encode, unmarshal_entry_lem}

-- `(br.pos-1)/br.dev.BlockSize() + 1` is the block behind the record, also where the position has
-- wrapped to zero at the end of the storage.
pub next_lba :
    (bs lba n len pos : ℕ)
    → 0 < bs
    → 0 < len
    → Covers bs n len
    → lba * bs + n * bs ≤ word
    → lba + n < word
    → pos ≡ (lba * bs + len) % word
    → (sub_word pos 1 / bs + 1) % word ≡ lba + n
next_lba bs lba zero len pos hb hl c fits small e = absurd (omega (arith, zero-mul bs))
next_lba bs lba (suc n) len pos hb hl c fits small e =
    let last : sub_word pos 1 ≡ lba * bs + len - 1 = omega arith in
    let below : (lba + n) * bs ≡ lba * bs + n * bs = add-mul lba n bs in
    let block : (n + 1) * bs ≡ n * bs + bs = add-mul n 1 bs ∙ ap (λ k. n * bs + k) (one-mul bs) in
    let above : (lba + n + 1) * bs ≡ lba * bs + (n * bs + bs) =
      ap (λ k. k * bs) (add_assoc lba n 1)
      ∙ add-mul lba (n + 1) bs
      ∙ ap (λ k. lba * bs + k) block in
    let whole : suc n * bs ≡ n * bs + bs = suc-mul n bs in
    let quotient : (lba * bs + len - 1) / bs ≡ lba + n =
      div-eq_of_lt-le {k = lba + n} bs (omega arith) (omega arith) in
    ap (λ k. (k / bs + 1) % word) last ∙ ap (λ k. (k + 1) % word) quotient ∙ omega arith

module _ {S : Type 0} (dev : Device S) (block : S → ℕ → List ℕ) (sha256 : List ℕ → List ℕ)
    (max_alloc : ℕ) where
  -- The blocks from `lba` on hold the record of `e`, padded with zeroes to `n` blocks.
  pub record Holds (s : S) (lba n : ℕ) (e : Entry) : Type 0 where
    pub sound : IsSound sha256 max_alloc e
    pub covers : Covers dev.block_size n (size e)
    pub stored : stream (block s) lba n ≡ encode e ++ replicate (n * dev.block_size - size e) 0

module _ {S : Type 0} {dev : Device S} {capacity : ℕ} {Valid : S → Type 0} {block : S → ℕ → List ℕ}
    (laws : IsBlockStore dev capacity Valid block) (sha256 : List ℕ → List ℕ) (max_alloc : ℕ) where
  pub Holds-pos :
      (s : S) (lba n : ℕ) (e : Entry) → Holds dev block sha256 max_alloc s lba n e → 0 < n
  Holds-pos s lba zero e h = absurd (omega (arith, h.covers, zero-mul dev.block_size))
  Holds-pos s lba (suc n) e h = omega arith

  module _ (top : ℕ) (s : S) (valid : Valid s) (top_in : top ≤ capacity)
      (fits : top * dev.block_size ≤ word) where
    -- `unmarshalEntry` at a record on storage returns its entry, and stops right behind it.
    pub unmarshal-Holds :
        (lba n : ℕ) (e : Entry)
        → Holds dev block sha256 max_alloc s lba n e
        → lba + n ≤ top
        → (br : Reader) × (unmarshal_entry dev sha256 max_alloc s (new_block_reader dev lba)
            ≡ ok (e, br))
          × (br.pos ≡ (lba * dev.block_size + size e) % word)
    unmarshal-Holds lba n e h le =
        let rest : ℕ = top - (lba + n) in
        let pad : List ℕ = replicate (n * dev.block_size - size e) 0 in
        let tail : List ℕ = stream (block s) (lba + n) rest in
        let split : stream (block s) lba (top - lba) ≡ encode e ++ (pad ++ tail) =
          ap (stream (block s) lba) (omega arith)
          ∙ stream-append (block s) lba n rest
          ∙ ap (λ l. l ++ tail) h.stored
          ∙ append_assoc (encode e) pad tail in
        let (br, ran, left) =
          unmarshal_entry_lem sha256 max_alloc laws top s valid top_in fits e
            (new_block_reader dev lba) (pad ++ tail) h.sound
            (subst (Reads laws top s valid top_in fits (new_block_reader dev lba)) split
              (new_block_reader_lem laws top s valid top_in fits lba (omega arith))) in
        let (some, place) = Reads-pos laws top s valid top_in fits br (pad ++ tail) left in
        let measure : length tail ≡ rest * dev.block_size =
          length-stream (block s) dev.block_size (lba + n) rest
            (λ i q. laws.length-block s i valid (omega arith)) in
        let whole : top * dev.block_size
            ≡ lba * dev.block_size + (n * dev.block_size + rest * dev.block_size) =
          ap (λ k. k * dev.block_size) (omega arith)
          ∙ add-mul lba (n + rest) dev.block_size
          ∙ ap (λ k. lba * dev.block_size + k) (add-mul n rest dev.block_size) in
        (
          br,
          ran,
          place
              ∙ ap (λ k. k % word)
                  (omega (
                    arith,
                    h.covers,
                    length-append pad tail,
                    length-replicate {A = ℕ} (n * dev.block_size - size e) 0,
                  )),
        )
