-- ===== src/Mmc/Writes.antt =====
-- trusted_applet/internal/storage/mmc/internal.go: the transfers of one write.
use native.Mathlib.Nat.{suc-mul, mul-div_left, add-mul, zero-mul, mul-le-mul_right}
use native.Mathlib.Decide.{dec_le}
use mathlib.Core.Path.{subst, ap₂}
use armored_witness_applet.Prelude.{
  ℕ, zero, suc, ◌+◌, ◌-◌, ◌*◌, ◌/◌, ◌%◌, ◌^◌, ◌≤◌, ◌<◌, ◌≡◌, ◌≢◌, refl, sym, ap, ◌∙◌, ◌⊎◌, inl, inr,
  List, [], ◌∷◌, ◌++◌, arith, length, take, drop, word, min, length-take, length-drop, take-drop,
}
use armored_witness_applet.Result.{Error, Result, ok, err, panic, out_of_fuel}
use armored_witness_applet.Device.Stream.{stream, stream_ext, stream-append}
use armored_witness_applet.Mmc.{System, max_transfer_bytes, then_write, write_chunks}

-- What the operating system promises of its calls on whole blocks of `bs` bytes.
pub record IsSystem {S : Type 0} (os : System S) (bs capacity : ℕ) (Valid : S → Type 0)
    (block : S → ℕ → List ℕ) : Type 0 where
  pub length-block : (s : S) (i : ℕ) → Valid s → i < capacity → length (block s i) ≡ bs
  pub read_ok :
      (s : S) (lba n : ℕ)
      → Valid s
      → 0 < n
      → lba + n ≤ capacity
      → os.read s (lba * bs) (n * bs) ≡ ok (stream (block s) lba n)
  pub read_past :
      (s : S) (lba n : ℕ)
      → Valid s
      → 0 < n
      → capacity ≤ lba
      → (e : Error) × (os.read s (lba * bs) (n * bs) ≡ err e)
  pub write_valid :
      (s : S) (lba n : ℕ) (b : List ℕ)
      → Valid s
      → length b ≡ n * bs
      → lba + n ≤ capacity
      → Valid (os.write_blocks s lba b).1
  pub write_ok :
      (s : S) (lba n : ℕ) (b : List ℕ)
      → Valid s
      → length b ≡ n * bs
      → lba + n ≤ capacity
      → (os.write_blocks s lba b).0 ≡ ok tt
      → stream (block (os.write_blocks s lba b).1) lba n ≡ b
  pub write_frame :
      (s : S) (lba n : ℕ) (b : List ℕ) (i : ℕ)
      → Valid s
      → length b ≡ n * bs
      → lba + n ≤ capacity
      → (i < lba) ⊎ (lba + n ≤ i)
      → i < capacity
      → block (os.write_blocks s lba b).1 i ≡ block s i

module _ {S : Type 0} {os : System S} {bs capacity : ℕ} {Valid : S → Type 0}
    {block : S → ℕ → List ℕ} (sys : IsSystem os bs capacity Valid block) (positive : 0 < bs) (c : ℕ)
    (some : 0 < c) (whole : c * bs ≡ max_transfer_bytes) (small : capacity ≤ 2 ^ 31) where
  -- What a write of `n` whole blocks from `lba` on does to a storage.
  pub record Wrote (s : S) (lba n : ℕ) (b : List ℕ) (r : Result (Unit {0}) × S) : Type 0 where
    pub still_valid : Valid r.1
    pub stored : r.0 ≡ ok tt → stream (block r.1) lba n ≡ b
    pub frame : (i : ℕ) → (i < lba) ⊎ (lba + n ≤ i) → i < capacity → block r.1 i ≡ block s i

  -- A transfer that fails ends the write.
  cut :
      (s : S) (lba k m : ℕ) (a d : List ℕ) (r : Result (Unit {0})) (s₁ : S)
      → r ≢ ok tt
      → Wrote s lba k a (r, s₁)
      → Wrote s lba (k + m) (a ++ d) (r, s₁)
  cut s lba k m a d r s₁ failed w = record {
    still_valid = w.still_valid;
    stored = λ h. absurd (failed h);
    frame = λ i apart q. w.frame i (inner i apart) q;
  }
    where
      inner : (i : ℕ) → (i < lba) ⊎ (lba + (k + m) ≤ i) → (i < lba) ⊎ (lba + k ≤ i)
      inner i (inl h) = inl h
      inner i (inr h) = inr (omega arith)

  -- One transfer, and the others behind it.
  join :
      (s : S) (lba k m : ℕ) (a d : List ℕ) (r : Result (Unit {0}) × S)
      (f : S → Result (Unit {0}) × S)
      → lba + (k + m) ≤ capacity
      → Wrote s lba k a r
      → Wrote r.1 (lba + k) m d (f r.1)
      → Wrote s lba (k + m) (a ++ d) (then_write r f)
  join s lba k m a d (ok u, s₁) f fit w₁ w₂ = record {
    still_valid = w₂.still_valid;
    stored = λ h.
        stream-append (block (f s₁).1) lba k m
        ∙ ap₂ ◌++◌
            (stream_ext (block (f s₁).1) (block s₁) lba k
                (λ i q. w₂.frame (lba + i) (inl (omega arith)) (omega arith))
              ∙ w₁.stored refl)
            (w₂.stored h);
    frame = λ i apart q. w₂.frame i (outer i apart) q ∙ w₁.frame i (inner i apart) q;
  }
    where
      outer : (i : ℕ) → (i < lba) ⊎ (lba + (k + m) ≤ i) → (i < lba + k) ⊎ (lba + k + m ≤ i)
      outer i (inl h) = inl (omega arith)
      outer i (inr h) = inr (omega arith)

      inner : (i : ℕ) → (i < lba) ⊎ (lba + (k + m) ≤ i) → (i < lba) ⊎ (lba + k ≤ i)
      inner i (inl h) = inl h
      inner i (inr h) = inr (omega arith)
  join s lba k m a d (err e, s₁) f fit w₁ w₂ = cut s lba k m a d (err e) s₁ (λ h. cc) w₁
  join s lba k m a d (panic, s₁) f fit w₁ w₂ = cut s lba k m a d panic s₁ (λ h. cc) w₁
  join s lba k m a d (out_of_fuel, s₁) f fit w₁ w₂ = cut s lba k m a d out_of_fuel s₁ (λ h. cc) w₁

  -- `n` whole blocks go out in transfers of at most `c` blocks.
  pub transfer : (n len : ℕ) → len ≡ n * bs → min len max_transfer_bytes ≡ min n c * bs
  transfer n len e = elim (dec_le n c) [
    | yes le ↦
        (let m : min n c ≡ n = omega arith in
          rw m (omega (arith, whole, mul-le-mul_right {m = n} {n = c} bs le)))
    | no gt ↦
        (let m : min n c ≡ c = omega (arith, gt) in
          rw m (omega (arith, whole, mul-le-mul_right {m = c} {n = n} bs (omega (arith, gt)))))
  ]

  pub positive_count : (n len : ℕ) → len ≡ n * bs → 0 < len → 0 < n
  positive_count zero len e some_bytes = omega (arith, zero-mul bs)
  positive_count (suc n) len e some_bytes = omega arith

  pub write_chunks-Wrote :
      (fuel n : ℕ) (s : S) (lba : ℕ) (b : List ℕ)
      → Valid s
      → length b ≡ n * bs
      → lba + n ≤ capacity
      → n ≤ fuel
      → Wrote s lba n b (write_chunks os bs fuel s lba b)
  unfolding write_chunks
  write_chunks-Wrote fuel zero s lba [] v size fit enough = record {
    still_valid = v;
    stored = λ h. refl;
    frame = λ i apart q. refl;
  }
  write_chunks-Wrote fuel (suc n) s lba [] v size fit enough = absurd (omega (arith, suc-mul n bs))
  write_chunks-Wrote zero zero s lba (x ∷ xs) v size fit enough =
      absurd (omega (arith, zero-mul bs))
  write_chunks-Wrote zero (suc n) s lba (x ∷ xs) v size fit enough = absurd (omega arith)
  write_chunks-Wrote (suc fuel) n s lba (x ∷ xs) v size fit enough =
      let k : ℕ = min n c in
      let b : List ℕ = x ∷ xs in
      let bl : min (length b) max_transfer_bytes ≡ k * bs = transfer n (length b) size in
      let n_pos : 0 < n = positive_count n (length b) size (omega arith) in
      let next : (lba + k * bs / bs) % word ≡ lba + k =
        ap (λ q. (lba + q) % word) (mul-div_left k positive) ∙ omega arith in
      let split : k * bs + (n - k) * bs ≡ n * bs =
        sym (add-mul k (n - k) bs) ∙ ap (λ j. j * bs) (omega arith) in
      let a : List ℕ = take (k * bs) b in
      let d : List ℕ = drop (k * bs) b in
      let a_size : length a ≡ k * bs = omega (arith, split, length-take (k * bs) b) in
      let d_size : length d ≡ (n - k) * bs = omega (arith, split, length-drop (k * bs) b) in
      let r = os.write_blocks s lba a in
      let first : Wrote s lba k a r = record {
        still_valid = sys.write_valid s lba k a v a_size (omega arith);
        stored = sys.write_ok s lba k a v a_size (omega arith);
        frame = λ i apart q. sys.write_frame s lba k a i v a_size (omega arith) apart q;
      } in
      let others : Wrote r.1 (lba + k) (n - k) d (write_chunks os bs fuel r.1 (lba + k) d) =
        write_chunks-Wrote fuel (n - k) r.1 (lba + k) d first.still_valid d_size (omega arith)
          (omega arith) in
      let both : Wrote s lba (k + (n - k)) (a ++ d)
          (then_write r (λ s'. write_chunks os bs fuel s' (lba + k) d)) =
        join s lba k (n - k) a d r (λ s'. write_chunks os bs fuel s' (lba + k) d) (omega arith)
          first others in
      let count : k + (n - k) ≡ n = omega arith in
      subst
        (λ l. Wrote s lba n b (
          then_write (os.write_blocks s lba (take l b))
            (λ s'. write_chunks os bs fuel s' ((lba + l / bs) % word) (drop l b))))
        (sym bl)
        (subst (λ l. Wrote s lba n b (then_write r (λ s'. write_chunks os bs fuel s' l d)))
          (sym next)
          (subst
            (λ m. Wrote s lba m b (then_write r (λ s'. write_chunks os bs fuel s' (lba + k) d)))
            count
            (subst
              (λ l.
                Wrote s lba (k + (n - k)) l
                  (then_write r (λ s'. write_chunks os bs fuel s' (lba + k) d)))
              (take-drop (k * bs) b) both)))
