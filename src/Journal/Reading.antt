-- ===== src/Journal/Reading.antt =====
-- trusted_applet/internal/storage/slots/journal.go: what `blockReader` and io.ReadFull deliver.
use armored_witness_applet.Prelude.{
  ℕ, zero, suc, ◌+◌, ◌-◌, ◌*◌, ◌%◌, ◌≤◌, ◌<◌, min, ◌≡◌, refl, sym, ap, ◌∙◌, List, [], ◌++◌, arith,
  length, take, drop, word, take-min, take-append_drop, drop-all, length-replicate, replicate,
  take-append_of_le, drop-append_of_le, drop-drop, length-take, length-drop, length-append,
}
use armored_witness_applet.Result.{ok}
use armored_witness_applet.Device.{Device}
use armored_witness_applet.Device.Stream.{stream}
use armored_witness_applet.Device.Laws.{IsBlockStore}
use armored_witness_applet.Journal.Filling.{Reads, Filled, fill_lem}
use armored_witness_applet.Journal.BlockReader.{Reader, new_block_reader, fill, read, read_full}

module _ {S : Type 0} {dev : Device S} {capacity : ℕ} {Valid : S → Type 0} {block : S → ℕ → List ℕ}
    (laws : IsBlockStore dev capacity Valid block) (top : ℕ) (s : S) (valid : Valid s)
    (top_in : top ≤ capacity) (fits : top * dev.block_size ≤ word) where
  -- One `Read` of `n` bytes delivers the next of them, at least one.
  read_lem :
      (br : Reader) (xs : List ℕ) (n : ℕ)
      → Reads laws top s valid top_in fits br xs
      → 0 < length xs
      → 0 < n
      → (m : ℕ) × (br' : Reader) × (read dev s br n ≡ ok (take m xs, br'))
        × (0 < m)
        × (m ≤ n)
        × (m ≤ length xs)
        × Reads laws top s valid top_in fits br' (drop m xs)
  unfolding read
  read_lem br xs n r h hn =
      let (br₁, filled, f) = fill_lem laws top s valid top_in fits br xs r h in go br₁ filled f
    where
      bs : ℕ
      bs = dev.block_size

      go :
          (br₁ : Reader)
          → fill dev s br ≡ ok br₁
          → Filled laws top s valid top_in fits br₁ xs
          → (m : ℕ) × (br' : Reader) × (read dev s br n ≡ ok (take m xs, br'))
            × (0 < m)
            × (m ≤ n)
            × (m ≤ length xs)
            × Reads laws top s valid top_in fits br' (drop m xs)
      go br₁ filled f =
          let m : ℕ = min n (length f.part) in
          let tail : List ℕ = stream (block s) f.q (top - f.q) in
          let cut : drop (br₁.pos % bs) br₁.buf ≡ f.part =
            ap (λ k. drop k br₁.buf) f.offset ∙ f.buffered in
          let got : take n (drop (br₁.pos % bs) br₁.buf) ≡ take m f.part =
            ap (take n) cut ∙ sym (take-min n f.part) in
          let head : take m f.part ≡ take m xs =
            sym (take-append_of_le m f.part tail (omega arith)) ∙ sym (ap (take m) f.delivers) in
          let len : length (take m f.part) ≡ m = omega (arith, length-take m f.part) in
          (
            m,
            record br₁ { pos = (br₁.pos + m) % word },
            rw (filled, got, len, head),
            omega (arith, f.some),
            omega arith,
            omega (arith, ap length f.delivers, length-append f.part tail),
            record {
              q = f.q;
              rest = drop m f.part;
              inside = f.inside;
              short = omega (arith, f.some, f.short, length-drop m f.part);
              behind = omega (arith, f.behind, length-drop m f.part);
              delivers = ap (drop m) f.delivers ∙ drop-append_of_le m f.part tail (omega arith);
              place = ap (λ k. k % word) (omega (arith, f.place, f.behind, length-drop m f.part));
              buffer = f.buffer;
              buffered =
                  sym (
                    drop-drop m (bs - length f.part) (bs - length (drop m f.part)) br₁.buf
                      (omega (arith, f.short, length-drop m f.part)))
                  ∙ ap (drop m) f.buffered;
            },
          )

  -- One round of `io.ReadFull` before the others.
  read_full_round :
      (fuel : ℕ) (br br₁ br₂ : Reader) (xs : List ℕ) (n m : ℕ)
      → m ≤ suc n
      → m ≤ length xs
      → read dev s br (suc n) ≡ ok (take m xs, br₁)
      → read_full dev fuel s br₁ (suc n - m) ≡ ok (take (suc n - m) (drop m xs), br₂)
      → read_full dev (suc fuel) s br (suc n) ≡ ok (take (suc n) xs, br₂)
  unfolding read_full
  read_full_round fuel br br₁ br₂ xs n m h le ran rest =
      let size : length (take m xs) ≡ m = omega (arith, length-take m xs) in
      let whole : take m xs ++ take (suc n - m) (drop m xs) ≡ take (suc n) xs =
        take-append_drop m (suc n - m) (suc n) xs (omega arith) in
      rw (ran, size, rest, whole)

  -- `io.ReadFull` of `n` bytes delivers the next `n` bytes, in at most `n` rounds.
  pub read_full_lem :
      (fuel : ℕ) (br : Reader) (xs : List ℕ) (n : ℕ)
      → Reads laws top s valid top_in fits br xs
      → n ≤ length xs
      → n ≤ fuel
      → (br' : Reader) × (read_full dev fuel s br n ≡ ok (take n xs, br'))
        × Reads laws top s valid top_in fits br' (drop n xs)
  unfolding read_full
  read_full_lem zero br xs zero r h hf = (br, refl, r)
  read_full_lem (suc fuel) br xs zero r h hf = (br, refl, r)
  read_full_lem zero br xs (suc n) r h hf = absurd (omega arith)
  read_full_lem (suc fuel) br xs (suc n) r h hf =
      let (m, br₁, ran, pos, le, most, r₁) = read_lem br xs (suc n) r (omega arith) (omega arith) in
      let (br₂, rest, r₂) =
        read_full_lem fuel br₁ (drop m xs) (suc n - m) r₁ (omega (arith, length-drop m xs))
          (omega arith) in
      let left : drop (suc n - m) (drop m xs) ≡ drop (suc n) xs =
        drop-drop (suc n - m) m (suc n) xs (omega arith) in
      (br₂, read_full_round fuel br br₁ br₂ xs n m le most ran rest, rw left at r₂)

  -- A new reader delivers the blocks from its address on.
  pub new_block_reader_lem :
      (lba : ℕ)
      → lba ≤ top
      → Reads laws top s valid top_in fits
          (new_block_reader dev lba)
          (stream (block s) lba (top - lba))
  unfolding new_block_reader
  new_block_reader_lem lba h = record {
    q = lba;
    rest = [];
    inside = h;
    short = laws.positive;
    behind = omega arith;
    delivers = refl;
    place = ap (λ k. k % word) (omega arith);
    buffer = length-replicate {A = ℕ} dev.block_size 0;
    buffered =
        drop-all (dev.block_size - 0) (replicate dev.block_size 0)
          (omega (arith, length-replicate {A = ℕ} dev.block_size 0));
  }
