-- ===== src/Device/Laws.antt =====
-- What the journal relies on of BlockReaderWriter: the comments on its methods, read as laws over
-- the contents of the storage. The comments ask for whole blocks; the journal also writes parts of
-- one, which both devices fill up with zeroes, and that is a law here.
use native.Mathlib.Nat.{one-mul}
use mathlib.Core.List.{append-nil}
use armored_witness_applet.Prelude.{
  ℕ, ◌+◌, ◌-◌, ◌*◌, ◌≤◌, ◌<◌, ◌≡◌, ◌⊎◌, ◌∙◌, ap, arith, List, ◌++◌, length, replicate,
}
use armored_witness_applet.Result.{Error, ok, err}
use armored_witness_applet.Device.{Device}
use armored_witness_applet.Device.Stream.{stream}

-- `n` blocks take `len` bytes, the last of them padded.
abbrev pub Covers : ℕ → ℕ → ℕ → Type 0
Covers bs n len = (len ≤ n * bs) × (n * bs < len + bs)

-- `block s i` is the content of block `i`, of `capacity` in all, and `Valid` what every reachable
-- storage meets.
pub record IsBlockStore {S : Type 0} (d : Device S) (capacity : ℕ) (Valid : S → Type 0)
    (block : S → ℕ → List ℕ) : Type 0 where
  pub positive : 0 < d.block_size
  pub length-block : (s : S) (i : ℕ) → Valid s → i < capacity → length (block s i) ≡ d.block_size
  -- A read of some whole blocks inside the storage returns their contents.
  pub read_ok :
      (s : S) (lba n : ℕ) (b : List ℕ)
      → Valid s
      → 0 < n
      → lba + n ≤ capacity
      → length b ≡ n * d.block_size
      → d.read_blocks s lba b ≡ ok (stream (block s) lba n)
  pub read_past :
      (s : S) (lba n : ℕ) (b : List ℕ)
      → Valid s
      → 0 < n
      → capacity ≤ lba
      → length b ≡ n * d.block_size
      → (e : Error) × (d.read_blocks s lba b ≡ err e)
  pub write_valid :
      (s : S) (lba : ℕ) (b : List ℕ) (n : ℕ)
      → Valid s
      → 0 < length b
      → Covers d.block_size n (length b)
      → lba + n ≤ capacity
      → Valid (d.write_blocks s lba b).1
  -- A write that succeeds stores its bytes and zeroes up to the end of its last block.
  pub write_ok :
      (s : S) (lba : ℕ) (b : List ℕ) (n m : ℕ)
      → Valid s
      → (d.write_blocks s lba b).0 ≡ ok m
      → 0 < length b
      → Covers d.block_size n (length b)
      → lba + n ≤ capacity
      → (m ≡ n)
        × (stream (block (d.write_blocks s lba b).1) lba n
            ≡ b ++ replicate (n * d.block_size - length b) 0)
  -- A write, also one that fails half way, touches no block but its own.
  pub write_frame :
      (s : S) (lba : ℕ) (b : List ℕ) (n i : ℕ)
      → Valid s
      → 0 < length b
      → Covers d.block_size n (length b)
      → lba + n ≤ capacity
      → (i < lba) ⊎ (lba + n ≤ i)
      → i < capacity
      → block (d.write_blocks s lba b).1 i ≡ block s i

-- A read of one block.
pub read_one :
    {S : Type 0} {d : Device S} {capacity : ℕ} {Valid : S → Type 0} {block : S → ℕ → List ℕ}
    → IsBlockStore d capacity Valid block
    → (s : S) (lba : ℕ) (b : List ℕ) → Valid s
    → lba < capacity
    → length b ≡ d.block_size
    → d.read_blocks s lba b ≡ ok (block s lba)
read_one {d = d} {block = block} laws s lba b v h size =
    laws.read_ok s lba 1 b v (omega arith) (omega arith) (omega (arith, size, one-mul d.block_size))
    ∙ ap ok (append-nil (block s lba))
