-- ===== src/Startup.antt =====
-- trusted_applet/main.go: the partition that the applet opens at its start.
use native.Mathlib.Nat.{suc-mul, zero-mul}
use armored_witness_applet.Prelude.{
  ℕ, zero, suc, ◌+◌, ◌*◌, ◌/◌, ◌%◌, ◌<◌, ◌≡◌, refl, sym, ◌∙◌, List, [], ◌∷◌, arith, true, false,
  ltb, lt→ltb, if◌then◌else◌, replicate, word,
}
use armored_witness_applet.Result.{Result, ok, out_of_fuel, ◌>>=◌}
use armored_witness_applet.Slots.{Partition, open_partition, lay_out}
use armored_witness_applet.Slots.Lengths.{Geometry, validate}
use armored_witness_applet.Slots.Layout.{sum, validate_iff}

abbrev pub slots_partition_start_block : ℕ
slots_partition_start_block = 4194304

abbrev pub slots_partition_length_blocks : ℕ
slots_partition_length_blocks = 4194304

abbrev pub slot_size_bytes : ℕ
slot_size_bytes = 524288

-- The loop of `openStorage` from block `i` on, for slots of `sl` blocks.
unfoldable pub slot_lengths_from : ℕ → ℕ → ℕ → Result (List ℕ)
slot_lengths_from zero sl i = if ltb i slots_partition_length_blocks then out_of_fuel else ok []
slot_lengths_from (suc fuel) sl i =
    let rest = slot_lengths_from fuel sl ((i + sl) % word) in
    if ltb i slots_partition_length_blocks then (rest >>= λ ls. ok (sl ∷ ls)) else ok []

-- `openStorage`, for blocks of `bs` bytes. Where it fails, the applet exits.
unfoldable pub open_storage : ℕ → ℕ → Result Partition
open_storage fuel bs = slot_lengths_from fuel (slot_size_bytes / bs) 0 >>= λ ls.
    open_partition (record {
      start = slots_partition_start_block;
      extent = slots_partition_length_blocks;
      slot_lengths = ls;
    })

sum-replicate : (n sl : ℕ) → sum (replicate n sl) ≡ n * sl
sum-replicate zero sl = sym (zero-mul sl)
sum-replicate (suc n) sl = omega (arith, sum-replicate n sl, suc-mul n sl)

slot_lengths_from-replicate :
    (n sl i : ℕ)
    → 0 < sl
    → i + n * sl ≡ slots_partition_length_blocks
    → slot_lengths_from n sl i ≡ ok (replicate n sl)
unfolding slot_lengths_from
slot_lengths_from-replicate zero sl i some h =
    let done : ltb i slots_partition_length_blocks ≡ false = ground (arith, h, zero-mul sl) in
    rw done refl
slot_lengths_from-replicate (suc n) sl i some h =
    let here : ltb i slots_partition_length_blocks ≡ true =
      lt→ltb i slots_partition_length_blocks (omega (arith, suc-mul n sl)) in
    let next : (i + sl) % word ≡ i + sl = omega (arith, suc-mul n sl) in
    rw (here, next, slot_lengths_from-replicate n sl (i + sl) some (omega (arith, suc-mul n sl)))
      refl

-- Where the blocks of a slot divide those of the partition, openStorage opens a partition of equal
-- slots; the fuel is their number.
pub open_storage_lem :
    (bs n : ℕ)
    → 0 < slot_size_bytes / bs
    → n * (slot_size_bytes / bs) ≡ slots_partition_length_blocks
    → open_storage n bs
      ≡ ok (record {
        slots = lay_out slots_partition_start_block (replicate n (slot_size_bytes / bs));
      })
unfolding open_storage open_partition
open_storage_lem bs n some whole =
    let sl : ℕ = slot_size_bytes / bs in
    let total : sum (replicate n sl) ≡ slots_partition_length_blocks = sum-replicate n sl ∙ whole in
    let geo : Geometry = record {
      start = slots_partition_start_block;
      extent = slots_partition_length_blocks;
      slot_lengths = replicate n sl;
    } in
    let accepted : validate geo ≡ ok tt =
      (validate_iff geo (omega (arith, total))).1 (omega (arith, total)) in
    rw (slot_lengths_from-replicate n sl 0 some (omega (arith, whole)), accepted) refl
