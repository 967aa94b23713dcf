-- ===== src/MemDev.antt =====
-- trusted_applet/internal/storage/testonly/memdev.go: a block device in memory, with no callback
-- OnBlockWritten.
pub mod Loops
pub mod Laws
use armored_witness_applet.Prelude.{
  ℕ, zero, suc, ◌+◌, ◌-◌, ◌*◌, ◌/◌, ◌%◌, List, [], ◌++◌, ltb, leb, ◌==◌, if◌then◌else◌, length,
  take, drop, set, get_or, replicate, word,
}
use armored_witness_applet.Result.{Error, Result, ok, err, lba_out_of_range}
use armored_witness_applet.Device.{Device}

abbrev pub mem_block_size : ℕ
mem_block_size = 512

-- `md.Storage`
abbrev pub Storage : Type 0
Storage = List (List ℕ)

-- Go's `copy(dst, src)`, as what `dst` holds afterwards
abbrev pub copy : List ℕ → List ℕ → List ℕ
copy dst src = take (length dst) src ++ drop (length src) dst

-- the number of blocks of a transfer, cut at the end of the device
abbrev pub clipped : Storage → ℕ → ℕ → ℕ
clipped st lba bl = if ltb (length st) ((lba + bl) % word) then length st - lba else bl

-- rounds `i`, `i + 1`, … of the loop of `ReadBlocks`
unfoldable pub read_loop : ℕ → ℕ → Storage → ℕ → List ℕ → List ℕ
read_loop zero i st lba b = b
read_loop (suc k) i st lba b =
    read_loop k (i + 1) st lba
      (take (i * mem_block_size) b ++ copy (drop (i * mem_block_size) b) (get_or st (lba + i) []))

unfoldable pub read_blocks : Storage → ℕ → List ℕ → Result (List ℕ)
read_blocks st lba b =
    if leb (length st) lba
    then err lba_out_of_range
    else ok (read_loop (clipped st lba (length b / mem_block_size)) 0 st lba b)

-- the padding of `b` to a multiple of the block size
unfoldable pub pad : List ℕ → List ℕ
pad b =
    if length b % mem_block_size == 0
    then b
    else b ++ replicate (mem_block_size - length b % mem_block_size) 0

-- rounds `i`, `i + 1`, … of the loop of `WriteBlocks`
unfoldable pub write_loop : ℕ → ℕ → Storage → ℕ → List ℕ → Storage
write_loop zero i st lba b = st
write_loop (suc k) i st lba b =
    write_loop k (i + 1)
      (set st (lba + i) (copy (get_or st (lba + i) []) (drop (i * mem_block_size) b))) lba b

unfoldable pub write_blocks : Storage → ℕ → List ℕ → Result ℕ × Storage
write_blocks st lba b =
    if leb (length st) lba
    then (err lba_out_of_range, st)
    else let bl = clipped st lba (length (pad b) / mem_block_size) in
      (ok bl, write_loop bl 0 st lba (pad b))

unfoldable pub mem_dev : Device Storage
unfolding read_blocks write_blocks
mem_dev = record {
  block_size = mem_block_size;
  read_blocks = read_blocks;
  write_blocks = write_blocks;
}
