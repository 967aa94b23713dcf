-- ===== src/MemDev/Laws.antt =====
-- trusted_applet/internal/storage/testonly/memdev.go: the device and what the journal relies on of
-- BlockReaderWriter.
use mathlib.Core.Path.{ap₂}
use mathlib.Core.List.{append-nil}
use armored_witness_applet.Prelude.{
  ℕ, ◌+◌, ◌-◌, ◌*◌, ◌/◌, ◌%◌, ◌≤◌, ◌<◌, ◌≡◌, refl, sym, ap, ◌∙◌, ◌⊎◌, inl, inr, true, false, ◌==◌,
  List, ◌++◌, arith, leb, length, replicate, word, length-append, length-replicate, take-all,
  Bool-cases,
}
use armored_witness_applet.Result.{Error, Result, ok, err, lba_out_of_range}
use armored_witness_applet.Device.Stream.{stream}
use armored_witness_applet.Device.Laws.{IsBlockStore, Covers}
use armored_witness_applet.MemDev.{
  mem_block_size, Storage, clipped, read_blocks, pad, write_loop, write_blocks, mem_dev,
}
use armored_witness_applet.MemDev.Loops.{
  content, IsStorage, read_ok, write_loop-frame, write_loop-IsStorage, stream-write_loop,
}

-- The padding fills the last block with zeroes.
pad-Covers :
    (n : ℕ) (b : List ℕ)
    → Covers mem_block_size n (length b)
    → pad b ≡ b ++ replicate (n * mem_block_size - length b) 0
unfolding pad
pad-Covers n b c = elim (Bool-cases (length b % mem_block_size == 0)) [
  | inl t ↦ rw t (
      let none : 0 ≡ n * mem_block_size - length b = ground (arith, t) in
      sym (append-nil b) ∙ ap (λ k. b ++ replicate k 0) none)
  | inr f ↦ rw f (ap (λ k. b ++ replicate k 0) (ground (arith, f)))
]

module _ (capacity : ℕ) (small : capacity < word) where
  -- What a write within the device does.
  write_lem :
      (st : Storage) (lba : ℕ) (b : List ℕ) (n : ℕ)
      → IsStorage capacity st
      → 0 < length b
      → Covers mem_block_size n (length b)
      → lba + n ≤ capacity
      → write_blocks st lba b
        ≡ (ok n, write_loop n 0 st lba (b ++ replicate (n * mem_block_size - length b) 0))
  unfolding write_blocks
  write_lem st lba b n v some c h =
      let padded : pad b ≡ b ++ replicate (n * mem_block_size - length b) 0 = pad-Covers n b c in
      let size : length (pad b) ≡ n * mem_block_size =
        ap length padded
        ∙ omega (
          arith,
          length-append b (replicate (n * mem_block_size - length b) 0),
          length-replicate {A = ℕ} (n * mem_block_size - length b) 0,
        ) in
      let inside : leb (length st) lba ≡ false = ground (arith, v.count) in
      let count : clipped st lba (length (pad b) / mem_block_size) ≡ n =
        ground (arith, v.count, size) in
      rw inside (
        ap₂ {A = ℕ} {B = List ℕ} {C = Result ℕ × Storage} (λ k l. (ok k, write_loop k 0 st lba l))
          count padded)

  write_valid :
      (st : Storage) (lba : ℕ) (b : List ℕ) (n : ℕ)
      → IsStorage capacity st
      → 0 < length b
      → Covers mem_block_size n (length b)
      → lba + n ≤ capacity
      → IsStorage capacity (write_blocks st lba b).1
  write_valid st lba b n v some c h = rw (write_lem st lba b n v some c h) (
      write_loop-IsStorage capacity n 0 st lba _ v (omega arith) (
        omega (
          arith,
          length-append b (replicate (n * mem_block_size - length b) 0),
          length-replicate {A = ℕ} (n * mem_block_size - length b) 0,
        )))

  write_ok :
      (st : Storage) (lba : ℕ) (b : List ℕ) (n m : ℕ)
      → IsStorage capacity st
      → (write_blocks st lba b).0 ≡ ok m
      → 0 < length b
      → Covers mem_block_size n (length b)
      → lba + n ≤ capacity
      → (m ≡ n)
        × (stream (content (write_blocks st lba b).1) lba n
            ≡ b ++ replicate (n * mem_block_size - length b) 0)
  write_ok st lba b n m v done some c h =
      let ran = write_lem st lba b n v some c h in
      let all : List ℕ = b ++ replicate (n * mem_block_size - length b) 0 in
      let size : length all ≡ n * mem_block_size = omega (
        arith,
        length-append b (replicate (n * mem_block_size - length b) 0),
        length-replicate {A = ℕ} (n * mem_block_size - length b) 0,
      ) in
      (
        cc (done, ap (λ p. p.0) ran),
        ap (λ p. stream (content p.1) lba n) ran
            ∙ ap (λ x. stream (content (write_loop n 0 st lba all)) x n) (omega arith)
            ∙ stream-write_loop capacity n 0 st lba all v (omega arith) (omega arith)
            ∙ take-all (n * mem_block_size) all (omega arith),
      )

  write_frame :
      (st : Storage) (lba : ℕ) (b : List ℕ) (n i : ℕ)
      → IsStorage capacity st
      → 0 < length b
      → Covers mem_block_size n (length b)
      → lba + n ≤ capacity
      → (i < lba) ⊎ (lba + n ≤ i)
      → i < capacity
      → content (write_blocks st lba b).1 i ≡ content st i
  write_frame st lba b n i v some c h apart inside =
      ap (λ p. content p.1 i) (write_lem st lba b n v some c h)
      ∙ write_loop-frame n 0 st lba _ i (shift apart)
    where
      shift : (i < lba) ⊎ (lba + n ≤ i) → (i < lba + 0) ⊎ (lba + 0 + n ≤ i)
      shift (inl p) = inl (omega arith)
      shift (inr p) = inr (omega arith)

  read_past :
      (st : Storage) (lba : ℕ) (b : List ℕ)
      → IsStorage capacity st
      → capacity ≤ lba
      → (e : Error) × (read_blocks st lba b ≡ err e)
  unfolding read_blocks
  read_past st lba b v h =
      let past : leb (length st) lba ≡ true = ground (arith, v.count) in
      (lba_out_of_range, rw past refl)

  -- The device in memory keeps what the journal relies on of BlockReaderWriter: reads of any number of
  -- blocks return what was written, a write stores its bytes padded with zeroes and touches no other
  -- block, and past the end there is an error.
  pub mem_dev-IsBlockStore : IsBlockStore mem_dev capacity (IsStorage capacity) content
  unfolding mem_dev
  mem_dev-IsBlockStore = record {
    positive = omega arith;
    length-block = λ st i v h. v.sizes i h;
    read_ok = λ st lba n b v some h q. read_ok capacity st lba n b small v some h q;
    read_past = λ st lba n b v some h q. read_past st lba b v h;
    write_valid = write_valid;
    write_ok = write_ok;
    write_frame = write_frame;
  }
