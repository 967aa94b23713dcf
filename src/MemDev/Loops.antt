-- ===== src/MemDev/Loops.antt =====
-- trusted_applet/internal/storage/testonly/memdev.go: the loops of ReadBlocks and WriteBlocks.
use mathlib.Core.Path.{subst, ap₂}
use mathlib.Core.List.{append-nil}
use native.Mathlib.Decide.{ℕ_discrete}
use mathlib.Core.List.{append_assoc}
use armored_witness_applet.Prelude.{
  ◌∷◌, ℕ, zero, suc, ◌+◌, ◌*◌, ◌/◌, ◌≤◌, ◌<◌, ◌≡◌, refl, sym, ap, ◌∙◌, ◌⊎◌, inl, inr, false, List,
  [], ◌++◌, arith, leb, length, take, drop, set, get_or, get_or-set_self, get_or-set_ne, word,
  length-set, length-take, length-drop, take-all, drop-all, take-length-append, drop-length-append,
  length-append, drop-drop, take-append_drop,
}
use armored_witness_applet.Result.{ok}
use armored_witness_applet.Device.Stream.{stream}
use armored_witness_applet.MemDev.{
  mem_block_size, Storage, copy, clipped, read_loop, read_blocks, write_loop,
}

-- The content of a block.
abbrev pub content : Storage → ℕ → List ℕ
content st i = get_or st i []

-- `capacity` arrays of 512 bytes
pub record IsStorage (capacity : ℕ) (st : Storage) : Type 0 where
  pub count : length st ≡ capacity
  pub sizes : (i : ℕ) → i < capacity → length (content st i) ≡ mem_block_size

-- A copy over a whole array.
copy-whole : (dst src : List ℕ) → length dst ≤ length src → copy dst src ≡ take (length dst) src
copy-whole dst src h =
    ap (λ l. take (length dst) src ++ l) (drop-all (length src) dst h)
    ∙ append-nil (take (length dst) src)

-- The loop of a read, of which `front` has been filled already.
stream-read_loop :
    (capacity k i : ℕ) (st : Storage) (lba : ℕ) (front rest : List ℕ)
    → IsStorage capacity st
    → lba + i + k ≤ capacity
    → length front ≡ i * mem_block_size
    → length rest ≡ k * mem_block_size
    → read_loop k i st lba (front ++ rest) ≡ front ++ stream (content st) (lba + i) k
unfolding read_loop
stream-read_loop capacity zero i st lba front [] v h done left = refl
stream-read_loop capacity zero i st lba front (x ∷ rest) v h done left = absurd (omega arith)
stream-read_loop capacity (suc k) i st lba front rest v h done left =
    let bl : List ℕ = content st (lba + i) in
    let size : length bl ≡ mem_block_size = v.sizes (lba + i) (omega arith) in
    let filled : take (i * mem_block_size) (front ++ rest)
          ++ copy (drop (i * mem_block_size) (front ++ rest)) bl
        ≡ (front ++ bl) ++ drop mem_block_size rest =
      ap₂ (λ x y. x ++ copy y bl) (take-length-append (i * mem_block_size) front rest (sym done))
        (drop-length-append (i * mem_block_size) front rest (sym done))
      ∙ ap₂ (λ x n. front ++ (x ++ drop n rest)) (take-all (length rest) bl (omega arith)) size
      ∙ sym (append_assoc front bl (drop mem_block_size rest)) in
    ap (read_loop k (i + 1) st lba) filled
    ∙ stream-read_loop capacity k (i + 1) st lba (front ++ bl) (drop mem_block_size rest) v
        (omega arith) (omega (arith, size, length-append front bl))
        (omega (arith, length-drop mem_block_size rest))
    ∙ append_assoc front bl (stream (content st) (lba + (i + 1)) k)
    ∙ ap (λ x. front ++ (bl ++ stream (content st) x k)) (omega arith)

-- A read of whole blocks.
pub read_ok :
    (capacity : ℕ) (st : Storage) (lba n : ℕ) (b : List ℕ)
    → capacity < word
    → IsStorage capacity st
    → 0 < n
    → lba + n ≤ capacity
    → length b ≡ n * mem_block_size
    → read_blocks st lba b ≡ ok (stream (content st) lba n)
unfolding read_blocks
read_ok capacity st lba n b small v some h size =
    let inside : leb (length st) lba ≡ false = ground (arith, v.count) in
    let count : clipped st lba (length b / mem_block_size) ≡ n = ground (arith, v.count, size) in
    rw inside (
      ap (λ k. ok (read_loop k 0 st lba b)) count
      ∙ ap ok (
          stream-read_loop capacity n 0 st lba [] b v (omega arith) refl size
          ∙ ap (λ x. stream (content st) x n) (omega arith)))

pub write_loop-frame :
    (k i : ℕ) (st : Storage) (lba : ℕ) (b : List ℕ) (x : ℕ)
    → (x < lba + i) ⊎ (lba + i + k ≤ x)
    → content (write_loop k i st lba b) x ≡ content st x
unfolding write_loop
write_loop-frame zero i st lba b x h = refl
write_loop-frame (suc k) i st lba b x h =
    write_loop-frame k (i + 1) _ lba b x (shift h)
    ∙ get_or-set_ne st (lba + i) x (copy (content st (lba + i)) (drop (i * mem_block_size) b)) []
        (λ e. apart e h)
  where
    shift : (x < lba + i) ⊎ (lba + i + suc k ≤ x) → (x < lba + (i + 1)) ⊎ (lba + (i + 1) + k ≤ x)
    shift (inl p) = inl (omega arith)
    shift (inr p) = inr (omega arith)

    apart : lba + i ≡ x → (x < lba + i) ⊎ (lba + i + suc k ≤ x) → ⊥
    apart e (inl p) = omega arith
    apart e (inr p) = omega arith

-- A round writes a whole block.
copy-block :
    (capacity i x : ℕ) (st : Storage) (b : List ℕ)
    → IsStorage capacity st
    → x < capacity
    → (i + 1) * mem_block_size ≤ length b
    → copy (content st x) (drop (i * mem_block_size) b)
      ≡ take mem_block_size (drop (i * mem_block_size) b)
copy-block capacity i x st b v h fit =
    let same : length (content st x) ≡ mem_block_size = v.sizes x h in
    copy-whole (content st x) (drop (i * mem_block_size) b)
      (omega (arith, length-drop (i * mem_block_size) b))
    ∙ ap (λ n. take n (drop (i * mem_block_size) b)) same

pub set-IsStorage :
    (capacity x : ℕ) (st : Storage) (v : List ℕ)
    → IsStorage capacity st
    → x < capacity
    → length v ≡ mem_block_size
    → IsStorage capacity (set st x v)
set-IsStorage capacity x st v h inside size = record {
  count = length-set st x v ∙ h.count;
  sizes = λ i q. elim (ℕ_discrete x i) [
    | yes e ↦
        subst (λ k. length (content (set st x v) k) ≡ mem_block_size) e
          (ap length (get_or-set_self st x v [] (omega (arith, h.count))) ∙ size)
    | no ne ↦ ap length (get_or-set_ne st x i v [] ne) ∙ h.sizes i q
  ];
}

pub write_loop-IsStorage :
    (capacity k i : ℕ) (st : Storage) (lba : ℕ) (b : List ℕ)
    → IsStorage capacity st
    → lba + i + k ≤ capacity
    → (i + k) * mem_block_size ≤ length b
    → IsStorage capacity (write_loop k i st lba b)
unfolding write_loop
write_loop-IsStorage capacity zero i st lba b v inside h = v
write_loop-IsStorage capacity (suc k) i st lba b v inside h =
    write_loop-IsStorage capacity k (i + 1) _ lba b
      (set-IsStorage capacity (lba + i) st _ v (omega arith) size) (omega arith) (omega arith)
  where
    size : length (copy (content st (lba + i)) (drop (i * mem_block_size) b)) ≡ mem_block_size
    size =
        ap length (copy-block capacity i (lba + i) st b v (omega arith) (omega arith))
        ∙ omega (
          arith,
          length-take mem_block_size (drop (i * mem_block_size) b),
          length-drop (i * mem_block_size) b,
        )

pub stream-write_loop :
    (capacity k i : ℕ) (st : Storage) (lba : ℕ) (b : List ℕ)
    → IsStorage capacity st
    → lba + i + k ≤ capacity
    → (i + k) * mem_block_size ≤ length b
    → stream (content (write_loop k i st lba b)) (lba + i) k
      ≡ take (k * mem_block_size) (drop (i * mem_block_size) b)
unfolding write_loop
stream-write_loop capacity zero i st lba b v h q = refl
stream-write_loop capacity (suc k) i st lba b v h q =
    let bl : List ℕ = copy (content st (lba + i)) (drop (i * mem_block_size) b) in
    let st' : Storage = set st (lba + i) bl in
    let block : bl ≡ take mem_block_size (drop (i * mem_block_size) b) =
      copy-block capacity i (lba + i) st b v (omega arith) (omega arith) in
    let size : length bl ≡ mem_block_size =
      ap length block
      ∙ omega (
        arith,
        length-take mem_block_size (drop (i * mem_block_size) b),
        length-drop (i * mem_block_size) b,
      ) in
    let first : content (write_loop k (i + 1) st' lba b) (lba + i)
        ≡ take mem_block_size (drop (i * mem_block_size) b) =
      write_loop-frame k (i + 1) st' lba b (lba + i) (inl (omega arith))
      ∙ get_or-set_self st (lba + i) bl [] (omega (arith, v.count))
      ∙ block in
    let rest : stream (content (write_loop k (i + 1) st' lba b)) (suc (lba + i)) k
        ≡ take (k * mem_block_size) (drop mem_block_size (drop (i * mem_block_size) b)) =
      ap (λ x. stream (content (write_loop k (i + 1) st' lba b)) x k) (omega arith)
      ∙ stream-write_loop capacity k (i + 1) st' lba b
          (set-IsStorage capacity (lba + i) st bl v (omega arith) size) (omega arith) (omega arith)
      ∙ ap (take (k * mem_block_size)) (
          sym (
            drop-drop mem_block_size (i * mem_block_size) ((i + 1) * mem_block_size) b
              (omega arith))) in
    ap₂ ◌++◌ first rest
    ∙ take-append_drop mem_block_size (k * mem_block_size) (suc k * mem_block_size)
        (drop (i * mem_block_size) b) (omega arith)
