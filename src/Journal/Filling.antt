-- ===== src/Journal/Filling.antt =====
-- trusted_applet/internal/storage/slots/journal.go: what `fill` puts into the buffer of a reader.
use native.Mathlib.Nat.{
  zero-mul, add-mul, suc-mul, mul-add-mod_self_right, mod-eq_of_lt, mul-mod_left, mul-div_left,
  le_trans, mul-le-mul_right,
}
use armored_witness_applet.Prelude.{
  ℕ, zero, suc, ◌+◌, ◌-◌, ◌*◌, ◌%◌, ◌≤◌, ◌<◌, ◌≡◌, ◌≢◌, refl, sym, ap, ◌∙◌, List, [], ◌∷◌, ◌++◌,
  arith, length, drop, word, length-append,
}
use armored_witness_applet.Result.{ok}
use armored_witness_applet.Device.{Device}
use armored_witness_applet.Device.Stream.{stream, length-stream, stream_nonempty, stream_uncons}
use armored_witness_applet.Device.Laws.{IsBlockStore, read_one}
use armored_witness_applet.Journal.BlockReader.{Reader, fill}

-- The remainder of `q` blocks less `r` bytes, where `r` is less than a block.
pub mod_of_block : (bs q r : ℕ) → r < bs → 0 < r → r ≤ q * bs → (q * bs - r) % bs ≡ bs - r
mod_of_block bs zero r h p le = absurd (omega (arith, zero-mul bs))
mod_of_block bs (suc q) r h p le =
    ap (λ k. k % bs) (omega (arith, suc-mul q bs))
    ∙ mul-add-mod_self_right q bs (bs - r)
    ∙ mod-eq_of_lt (omega arith)

module _ {S : Type 0} {dev : Device S} {capacity : ℕ} {Valid : S → Type 0} {block : S → ℕ → List ℕ}
    (laws : IsBlockStore dev capacity Valid block) (top : ℕ) (s : S) (valid : Valid s)
    (top_in : top ≤ capacity) (fits : top * dev.block_size ≤ word) where
  -- The reader has `rest` of the block before `q` left in its buffer; what it will deliver up to
  -- block `top` is `xs`.
  pub record Reads (br : Reader) (xs : List ℕ) : Type 0 where
    pub q : ℕ
    pub rest : List ℕ
    pub inside : q ≤ top
    pub short : length rest < dev.block_size
    pub behind : length rest ≤ q * dev.block_size
    pub delivers : xs ≡ rest ++ stream (block s) q (top - q)
    pub place : br.pos ≡ (q * dev.block_size - length rest) % word
    pub buffer : length br.buf ≡ dev.block_size
    pub buffered : drop (dev.block_size - length rest) br.buf ≡ rest

  -- After `fill` the bytes at hand, `part`, are not empty.
  pub record Filled (br : Reader) (xs : List ℕ) : Type 0 where
    pub q : ℕ
    pub part : List ℕ
    pub inside : q ≤ top
    pub some : 0 < length part
    pub short : length part ≤ dev.block_size
    pub behind : length part ≤ q * dev.block_size
    pub delivers : xs ≡ part ++ stream (block s) q (top - q)
    pub place : br.pos ≡ q * dev.block_size - length part
    pub offset : br.pos % dev.block_size ≡ dev.block_size - length part
    pub buffer : length br.buf ≡ dev.block_size
    pub buffered : drop (dev.block_size - length part) br.buf ≡ part

  fill_at_block :
      (br : Reader) (q : ℕ)
      → q < top
      → br.pos ≡ q * dev.block_size
      → length br.buf ≡ dev.block_size
      → fill dev s br ≡ ok (record br { buf = block s q })
  unfolding fill
  fill_at_block br q h p b = rw (
    p,
    mul-mod_left q dev.block_size,
    mul-div_left q laws.positive,
    read_one laws s q br.buf valid (omega arith) b,
  )

  fill_in_block : (br : Reader) → br.pos % dev.block_size ≢ 0 → fill dev s br ≡ ok br
  unfolding fill
  fill_in_block br h = ground arith

  pub fill_lem :
      (br : Reader) (xs : List ℕ)
      → Reads br xs
      → 0 < length xs
      → (br' : Reader) × (fill dev s br ≡ ok br') × Filled br' xs
  fill_lem br xs r h = go r.rest refl
    where
      bs : ℕ
      bs = dev.block_size

      most : r.q * bs ≤ word
      most = le_trans (mul-le-mul_right bs r.inside) fits

      empty_case : r.rest ≡ [] → (br' : Reader) × (fill dev s br ≡ ok br') × Filled br' xs
      empty_case e =
          let all : xs ≡ stream (block s) r.q (top - r.q) =
            r.delivers ∙ ap (λ l. l ++ stream (block s) r.q (top - r.q)) e in
          let more : 0 < top - r.q =
            stream_nonempty (block s) r.q (top - r.q) (omega (arith, ap length all)) in
          let room : r.q * bs + bs ≤ word =
            le_trans
              (omega
                (arith, mul-le-mul_right {m = suc r.q} {n = top} bs (omega arith), suc-mul r.q bs))
              fits in
          let at : br.pos ≡ r.q * bs = omega (arith, r.place, ap length e, laws.positive) in
          let size : length (block s r.q) ≡ bs = laws.length-block s r.q valid (omega arith) in
          (
            record br { buf = block s r.q },
            fill_at_block br r.q (omega arith) at r.buffer,
            record {
              q = suc r.q;
              part = block s r.q;
              inside = omega arith;
              some = omega (arith, laws.positive);
              short = omega arith;
              behind = omega (arith, suc-mul r.q bs);
              delivers = all ∙ stream_uncons (block s) r.q top (omega arith);
              place = omega (arith, suc-mul r.q bs);
              offset = ap (λ k. k % bs) at ∙ mul-mod_left r.q bs ∙ omega arith;
              buffer = size;
              buffered = let z : bs - length (block s r.q) ≡ 0 = omega arith in rw z;
            },
          )

      go : (l : List ℕ) → r.rest ≡ l → (br' : Reader) × (fill dev s br ≡ ok br') × Filled br' xs
      go [] e = empty_case e
      go (y ∷ ys) e =
          let some : 0 < length r.rest = omega (arith, ap length e) in
          let at : br.pos ≡ r.q * bs - length r.rest = omega (arith, r.place, r.behind, most) in
          let off : br.pos % bs ≡ bs - length r.rest =
            ap (λ k. k % bs) at ∙ mod_of_block bs r.q (length r.rest) r.short some r.behind in
          (
            br,
            fill_in_block br (omega (arith, r.short)),
            record {
              q = r.q;
              part = r.rest;
              inside = r.inside;
              some = some;
              short = omega (arith, r.short);
              behind = r.behind;
              delivers = r.delivers;
              place = at;
              offset = off;
              buffer = r.buffer;
              buffered = r.buffered;
            },
          )

  -- The position of a reader, from what it has left to deliver.
  pub Reads-pos :
      (br : Reader) (xs : List ℕ)
      → Reads br xs
      → (length xs ≤ top * dev.block_size) × (br.pos ≡ (top * dev.block_size - length xs) % word)
  Reads-pos br xs r =
      let tail : length (stream (block s) r.q (top - r.q)) ≡ (top - r.q) * dev.block_size =
        length-stream (block s) dev.block_size r.q (top - r.q)
          (λ i h. laws.length-block s i valid (omega (arith, r.inside))) in
      let all : length xs ≡ length r.rest + (top - r.q) * dev.block_size =
        ap length r.delivers
        ∙ length-append r.rest (stream (block s) r.q (top - r.q))
        ∙ ap (λ k. length r.rest + k) tail in
      let split : r.q * dev.block_size + (top - r.q) * dev.block_size ≡ top * dev.block_size =
        sym (add-mul r.q (top - r.q) dev.block_size)
        ∙ ap (λ k. k * dev.block_size) (omega (arith, r.inside)) in
      (omega (arith, r.behind), r.place ∙ ap (λ k. k % word) (omega (arith, r.behind)))
