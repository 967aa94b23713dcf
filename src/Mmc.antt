-- ===== src/Mmc.antt =====
-- trusted_applet/internal/storage/mmc/internal.go: the device behind the calls of the operating
-- system, in transfers of bounded size.
pub mod Writes
pub mod Reads
pub mod Transfers
use armored_witness_applet.Prelude.{
  ℕ, zero, suc, ◌+◌, ◌-◌, ◌*◌, ◌/◌, ◌%◌, List, [], ◌∷◌, ◌++◌, ◌==◌, if◌then◌else◌, length, take,
  drop, replicate, word, min,
}
use armored_witness_applet.Result.{Result, ok, err, panic, out_of_fuel, ◌>>=◌}
use armored_witness_applet.Device.{Device}
use armored_witness_applet.MemDev.{copy}

-- The system calls "RPC.WriteBlocks", at a block, and "RPC.Read", at an offset and of a size in
-- bytes. An error of a call is passed on.
pub record System (S : Type 0) : Type 0 where
  pub write_blocks : S → ℕ → List ℕ → Result (Unit {0}) × S
  pub read : S → ℕ → ℕ → Result (List ℕ)

abbrev pub max_transfer_bytes : ℕ
max_transfer_bytes = 32 * 1024

-- the padding of `b` to a multiple of the block size `bs`
unfoldable pub pad : ℕ → List ℕ → List ℕ
pad bs b = if length b % bs == 0 then b else b ++ replicate (bs - length b % bs) 0

abbrev pub then_write :
    {S : Type 0} → Result (Unit {0}) × S → (S → Result (Unit {0}) × S) → Result (Unit {0}) × S
then_write (ok u, s) f = f s
then_write (err e, s) f = (err e, s)
then_write (panic, s) f = (panic, s)
then_write (out_of_fuel, s) f = (out_of_fuel, s)

module _ {S : Type 0} (os : System S) (bs : ℕ) where
  -- The loop of `WriteBlocks`. Each round sends a byte or more. `int(lba)` is the address itself, as
  -- it is below 2^31; from there on it would be negative.
  unfoldable pub write_chunks : ℕ → S → ℕ → List ℕ → Result (Unit {0}) × S
  write_chunks fuel s lba [] = (ok tt, s)
  write_chunks zero s lba (x ∷ xs) = (out_of_fuel, s)
  write_chunks (suc fuel) s lba (x ∷ xs) =
      let bl = min (length (x ∷ xs)) max_transfer_bytes in
      then_write (os.write_blocks s lba (take bl (x ∷ xs)))
        (λ s'. write_chunks fuel s' ((lba + bl / bs) % word) (drop bl (x ∷ xs)))

  abbrev pub counted : ℕ → Result (Unit {0}) × S → Result ℕ × S
  counted n (ok u, s) = (ok n, s)
  counted n (err e, s) = (err e, s)
  counted n (panic, s) = (panic, s)
  counted n (out_of_fuel, s) = (out_of_fuel, s)

  unfoldable pub write_blocks : S → ℕ → List ℕ → Result ℕ × S
  write_blocks s lba [] = (ok 0, s)
  write_blocks s lba (x ∷ xs) =
      let b = pad bs (x ∷ xs) in counted (length b / bs) (write_chunks (length b) s lba b)

  -- The loop of `ReadBlocks`. Go's `copy` fills as much of `b` as the call returned.
  unfoldable pub read_chunks : ℕ → S → ℕ → List ℕ → Result (List ℕ)
  read_chunks fuel s lba [] = ok []
  read_chunks zero s lba (x ∷ xs) = out_of_fuel
  read_chunks (suc fuel) s lba (x ∷ xs) =
      let bl = min (length (x ∷ xs)) max_transfer_bytes in
      os.read s (lba * bs) bl >>= λ buf.
      read_chunks fuel s ((lba + bl / bs) % word) (drop bl (copy (x ∷ xs) buf)) >>= λ rest.
      ok (take bl (copy (x ∷ xs) buf) ++ rest)

  unfoldable pub read_blocks : S → ℕ → List ℕ → Result (List ℕ)
  read_blocks s lba b = read_chunks (length b) s lba b

  -- `CardInfo.BlockSize` is `bs`.
  unfoldable pub device : Device S
  unfolding read_blocks write_blocks
  device = record { block_size = bs; read_blocks = read_blocks; write_blocks = write_blocks }
