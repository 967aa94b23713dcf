-- ===== src/Mmc/Transfers.antt =====
-- trusted_applet/internal/storage/mmc/internal.go: the device and the contract of
-- BlockReaderWriter.
use native.Mathlib.Nat.{one-mul, mul_comm, mul-div_left, mul-mod_left, mul-le-mul_right}
use native.Mathlib.Decide.{ℕ_discrete}
use mathlib.Core.Path.{subst}
use mathlib.Core.List.{append-nil}
use armored_witness_applet.Prelude.{
  ℕ, ◌+◌, ◌-◌, ◌*◌, ◌/◌, ◌%◌, ◌^◌, ◌≤◌, ◌<◌, ◌≡◌, refl, sym, ap, ◌∙◌, List, [], ◌∷◌, ◌++◌, ◌==◌,
  arith, length, replicate, length-append, length-replicate, ==_iff, false, true,
}
use armored_witness_applet.Result.{Result, ok, err, panic, out_of_fuel}
use armored_witness_applet.Device.Stream.{stream}
use armored_witness_applet.Device.Laws.{IsBlockStore, Covers}
use armored_witness_applet.Journal.Filling.{mod_of_block}
use armored_witness_applet.Mmc.{
  System, max_transfer_bytes, pad, write_chunks, counted, write_blocks, device,
}
use armored_witness_applet.Mmc.Reads.{read_ok, read_past}
use armored_witness_applet.Mmc.Writes.{IsSystem, Wrote, write_chunks-Wrote}

module _ {S : Type 0} {os : System S} {bs capacity : ℕ} {Valid : S → Type 0}
    {block : S → ℕ → List ℕ} (sys : IsSystem os bs capacity Valid block) (positive : 0 < bs) (c : ℕ)
    (some : 0 < c) (whole : c * bs ≡ max_transfer_bytes) (small : capacity ≤ 2 ^ 31) where
  -- The padding fills the last block with zeroes.
  pad-Covers :
      (n : ℕ) (b : List ℕ)
      → Covers bs n (length b)
      → pad bs b ≡ b ++ replicate (n * bs - length b) 0
  unfolding pad
  pad-Covers n b cov = elim (ℕ_discrete (n * bs - length b) 0) [
    | yes full ↦
        (let size : length b ≡ n * bs = omega (arith, cov) in
          let none : (length b % bs == 0) ≡ true =
            (==_iff (length b % bs) 0).1 (ap (λ k. k % bs) size ∙ mul-mod_left n bs) in
          rw (none, full) (sym (append-nil b)))
    | no part ↦
        (let r : ℕ = n * bs - length b in
          let rem : length b % bs ≡ bs - r =
            ap (λ k. k % bs) (omega (arith, cov))
            ∙ mod_of_block bs n r (omega (arith, cov)) (omega (arith, part)) (omega (arith, cov)) in
          let some_left : (length b % bs == 0) ≡ false = ground (arith, rem, cov, part) in
          let fill : bs - length b % bs ≡ n * bs - length b = omega (arith, rem, cov) in
          rw some_left (ap (λ k. b ++ replicate k 0) fill))
  ]

  -- A write of some bytes, as transfers of whole blocks.
  write_blocks_lem :
      (n : ℕ) (s : S) (lba : ℕ) (b : List ℕ)
      → 0 < length b
      → Covers bs n (length b)
      → let all = b ++ replicate (n * bs - length b) 0 in
        (write_blocks os bs s lba b ≡ counted os bs n (write_chunks os bs (length all) s lba all))
        × (length all ≡ n * bs)
  unfolding write_blocks
  write_blocks_lem n s lba [] some_bytes cov = absurd (omega arith)
  write_blocks_lem n s lba (x ∷ xs) some_bytes cov =
      let all : List ℕ = (x ∷ xs) ++ replicate (n * bs - length (x ∷ xs)) 0 in
      let padded : pad bs (x ∷ xs) ≡ all = pad-Covers n (x ∷ xs) cov in
      let size : length all ≡ n * bs = omega (
        arith,
        cov,
        length-append (x ∷ xs) (replicate (n * bs - length (x ∷ xs)) 0),
        length-replicate {A = ℕ} (n * bs - length (x ∷ xs)) 0,
      ) in
      let count : length all / bs ≡ n = ap (λ k. k / bs) size ∙ mul-div_left n positive in
      (
        ap (λ l. counted os bs (length l / bs) (write_chunks os bs (length l) s lba l)) padded
            ∙ ap (λ k. counted os bs k (write_chunks os bs (length all) s lba all)) count,
        size,
      )

  counted-state : (n : ℕ) (r : Result (Unit {0}) × S) → (counted os bs n r).1 ≡ r.1
  counted-state n (ok u, s) = refl
  counted-state n (err e, s) = refl
  counted-state n (panic, s) = refl
  counted-state n (out_of_fuel, s) = refl

  counted-ok :
      (n m : ℕ) (r : Result (Unit {0}) × S) → (counted os bs n r).0 ≡ ok m → (r.0 ≡ ok tt) × (m ≡ n)
  counted-ok n m (ok u, s) h = (refl, cc)
  counted-ok n m (err e, s) h = cc
  counted-ok n m (panic, s) h = cc
  counted-ok n m (out_of_fuel, s) h = cc

  write_blocks-Wrote :
      (n : ℕ) (s : S) (lba : ℕ) (b : List ℕ)
      → Valid s
      → 0 < length b
      → Covers bs n (length b)
      → lba + n ≤ capacity
      → (r : Result (Unit {0}) × S) × (write_blocks os bs s lba b ≡ counted os bs n r)
        × Wrote sys positive c some whole small s lba n (b ++ replicate (n * bs - length b) 0) r
  write_blocks-Wrote n s lba b v some_bytes cov fit =
      let all : List ℕ = b ++ replicate (n * bs - length b) 0 in
      let (ran, size) = write_blocks_lem n s lba b some_bytes cov in
      (
        write_chunks os bs (length all) s lba all,
        ran,
        write_chunks-Wrote sys positive c some whole small (length all) n s lba all v size fit (
            omega (
              arith,
              size,
              mul_comm n bs,
              one-mul n,
              mul-le-mul_right {m = 1} {n = bs} n positive,
            )),
      )

  -- Over an operating system that reads and writes whole blocks as asked, the device keeps what the
  -- journal relies on of BlockReaderWriter, also where it takes several transfers: a read of whole
  -- blocks returns their contents; a write stores all of its bytes, padded with zeroes, or fails, and
  -- touches no other block. The size of a transfer is a multiple of the block size, and the storage
  -- has at most 2^31 blocks, so that their addresses are not negative as an int.
  pub device-IsBlockStore : IsBlockStore (device os bs) capacity Valid block
  unfolding device
  device-IsBlockStore = record {
    positive = positive;
    length-block = sys.length-block;
    read_ok = read_ok sys positive c some whole small;
    read_past = read_past sys positive c some whole small;
    write_valid = λ s lba b n v some_bytes cov fit.
        (let (r, ran, w) = write_blocks-Wrote n s lba b v some_bytes cov fit in
          subst Valid (sym (ap (λ q. q.1) ran ∙ counted-state n r)) w.still_valid);
    write_ok = λ s lba b n m v done some_bytes cov fit.
        (let (r, ran, w) = write_blocks-Wrote n s lba b v some_bytes cov fit in
          let (sent, count) = counted-ok n m r (sym (ap (λ q. q.0) ran) ∙ done) in
          (
            count,
            ap (λ q. stream (block q) lba n) (ap (λ q. q.1) ran ∙ counted-state n r)
                ∙ w.stored sent,
          ));
    write_frame = λ s lba b n i v some_bytes cov fit apart inside.
        (let (r, ran, w) = write_blocks-Wrote n s lba b v some_bytes cov fit in
          ap (λ q. block q i) (ap (λ q. q.1) ran ∙ counted-state n r) ∙ w.frame i apart inside);
  }
