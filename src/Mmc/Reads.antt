-- ===== src/Mmc/Reads.antt =====
-- trusted_applet/internal/storage/mmc/internal.go: the transfers of one read.
use native.Mathlib.Nat.{suc-mul, mul-div_left, add-mul, mul_comm, one-mul, mul-le-mul_right}
use mathlib.Core.Path.{ap₂}
use armored_witness_applet.Prelude.{
  ℕ, zero, suc, ◌+◌, ◌-◌, ◌*◌, ◌/◌, ◌%◌, ◌^◌, ◌≤◌, ◌<◌, ◌≡◌, refl, sym, ap, ◌∙◌, List, [], ◌∷◌,
  ◌++◌, arith, length, take, drop, word, min, length-drop, take-all, take-length-append,
  drop-length-append,
}
use armored_witness_applet.Result.{Error, ok, err}
use armored_witness_applet.Device.Stream.{stream, stream-append, length-stream}
use armored_witness_applet.MemDev.{copy}
use armored_witness_applet.Mmc.{System, max_transfer_bytes, read_chunks, read_blocks}
use armored_witness_applet.Mmc.Writes.{IsSystem, transfer, positive_count}

module _ {S : Type 0} {os : System S} {bs capacity : ℕ} {Valid : S → Type 0}
    {block : S → ℕ → List ℕ} (sys : IsSystem os bs capacity Valid block) (positive : 0 < bs) (c : ℕ)
    (some : 0 < c) (whole : c * bs ≡ max_transfer_bytes) (small : capacity ≤ 2 ^ 31) where
  -- Each transfer returns its blocks, and the next goes on behind them.
  read_chunks_lem :
      (fuel n : ℕ) (s : S) (lba : ℕ) (b : List ℕ)
      → Valid s
      → length b ≡ n * bs
      → lba + n ≤ capacity
      → n ≤ fuel
      → read_chunks os bs fuel s lba b ≡ ok (stream (block s) lba n)
  unfolding read_chunks
  read_chunks_lem fuel zero s lba [] v size fit enough = refl
  read_chunks_lem fuel (suc n) s lba [] v size fit enough = absurd (omega (arith, suc-mul n bs))
  read_chunks_lem zero n s lba (x ∷ xs) v size fit enough = absurd (
      omega (
        arith,
        positive_count sys positive c some whole small n (length (x ∷ xs)) size (omega arith),
      ))
  read_chunks_lem (suc fuel) n s lba (x ∷ xs) v size fit enough =
      let k : ℕ = min n c in
      let b : List ℕ = x ∷ xs in
      let buf : List ℕ = stream (block s) lba k in
      let bl : min (length b) max_transfer_bytes ≡ k * bs =
        transfer sys positive c some whole small n (length b) size in
      let n_pos : 0 < n =
        positive_count sys positive c some whole small n (length b) size (omega arith) in
      let next : (lba + k * bs / bs) % word ≡ lba + k =
        ap (λ q. (lba + q) % word) (mul-div_left k positive) ∙ omega arith in
      let split : k * bs + (n - k) * bs ≡ n * bs =
        sym (add-mul k (n - k) bs) ∙ ap (λ j. j * bs) (omega arith) in
      let buf_size : length buf ≡ k * bs =
        length-stream (block s) bs lba k (λ i q. sys.length-block s i v (omega arith)) in
      let got : os.read s (lba * bs) (k * bs) ≡ ok buf =
        sys.read_ok s lba k v (omega (arith, n_pos, some)) (omega arith) in
      let filled : copy b buf ≡ buf ++ drop (k * bs) b =
        ap₂ (λ l m. l ++ drop m b) (take-all (length b) buf (omega (arith, split))) buf_size in
      let front : take (k * bs) (copy b buf) ≡ buf =
        ap (take (k * bs)) filled
        ∙ take-length-append (k * bs) buf (drop (k * bs) b) (sym buf_size) in
      let left : drop (k * bs) (copy b buf) ≡ drop (k * bs) b =
        ap (drop (k * bs)) filled
        ∙ drop-length-append (k * bs) buf (drop (k * bs) b) (sym buf_size) in
      let others : read_chunks os bs fuel s (lba + k) (drop (k * bs) b)
          ≡ ok (stream (block s) (lba + k) (n - k)) =
        read_chunks_lem fuel (n - k) s (lba + k) (drop (k * bs) b) v
          (omega (arith, split, length-drop (k * bs) b)) (omega arith) (omega (arith, some)) in
      let joined : buf ++ stream (block s) (lba + k) (n - k) ≡ stream (block s) lba n =
        sym (stream-append (block s) lba k (n - k)) ∙ ap (stream (block s) lba) (omega arith) in
      rw (bl, got, left, front, next, others) (ap ok joined)

  -- A read of some whole blocks, in as many transfers as it takes.
  pub read_ok :
      (s : S) (lba n : ℕ) (b : List ℕ)
      → Valid s
      → 0 < n
      → lba + n ≤ capacity
      → length b ≡ n * bs
      → read_blocks os bs s lba b ≡ ok (stream (block s) lba n)
  unfolding read_blocks
  read_ok s lba n b v some_blocks fit size =
      read_chunks_lem (length b) n s lba b v size fit (
        omega (arith, size, mul_comm n bs, one-mul n, mul-le-mul_right {m = 1} {n = bs} n positive))

  -- A read from the end of the storage on fails in its first transfer.
  pub read_past :
      (s : S) (lba n : ℕ) (b : List ℕ)
      → Valid s
      → 0 < n
      → capacity ≤ lba
      → length b ≡ n * bs
      → (e : Error) × (read_blocks os bs s lba b ≡ err e)
  unfolding read_blocks read_chunks
  read_past s lba zero b v some_blocks h size = absurd (omega arith)
  read_past s lba (suc n) [] v some_blocks h size = absurd (omega (arith, suc-mul n bs))
  read_past s lba (suc n) (x ∷ xs) v some_blocks h size =
      let bl : min (length (x ∷ xs)) max_transfer_bytes ≡ min (suc n) c * bs =
        transfer sys positive c some whole small (suc n) (length (x ∷ xs)) size in
      let (e, failed) = sys.read_past s lba (min (suc n) c) v (omega (arith, some)) h in
      (e, rw (bl, failed) refl)
