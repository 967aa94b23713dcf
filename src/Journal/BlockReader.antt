-- ===== src/Journal/BlockReader.antt =====
-- trusted_applet/internal/storage/slots/journal.go: `blockReader`, an io.Reader over a device.
use armored_witness_applet.Prelude.{
  ℕ, zero, suc, ◌+◌, ◌-◌, ◌*◌, ◌/◌, ◌%◌, List, [], ◌++◌, ◌==◌, if◌then◌else◌, length, take, drop,
  replicate, word,
}
use armored_witness_applet.Result.{Result, ok, out_of_fuel, ◌>>=◌}
use armored_witness_applet.Device.{Device}

-- `blockReader`, without its device
pub record Reader : Type 0 where
  pub buf : List ℕ
  pub pos : ℕ

module _ {S : Type 0} (dev : Device S) where
  unfoldable pub new_block_reader : ℕ → Reader
  new_block_reader lba = record {
    buf = replicate dev.block_size 0;
    pos = lba * dev.block_size % word;
  }

  -- the first half of `Read`: at the beginning of a block, the block is read
  unfoldable pub fill : S → Reader → Result Reader
  fill s br =
      if br.pos % dev.block_size == 0
      then (do
        buf ← dev.read_blocks s (br.pos / dev.block_size) br.buf
        ok (record br { buf = buf }))
      else ok br

  -- `Read` into a slice of `n` bytes: the bytes copied, at most to the end of the block
  unfoldable pub read : S → Reader → ℕ → Result (List ℕ × Reader)
  read s br n = do
    br' ← fill s br
    let b = take n (drop (br'.pos % dev.block_size) br'.buf)
    ok (b, record br' { pos = (br'.pos + length b) % word })

  -- `io.ReadFull` into a slice of `n` bytes. Each call of `Read` is a round.
  unfoldable pub read_full : ℕ → S → Reader → ℕ → Result (List ℕ × Reader)
  read_full fuel s br zero = ok ([], br)
  read_full zero s br (suc n) = out_of_fuel
  read_full (suc fuel) s br (suc n) = read s br (suc n) >>= λ p.
      read_full fuel s p.1 (suc n - length p.0) >>= λ q. ok (p.0 ++ q.0, q.1)
