-- ===== src/Tests/Transfers.antt =====
-- Tests of the device behind the calls of the operating system.
use native.Mathlib.Nat.{mul-div_left}
use mathlib.Core.List.{append-nil}
use mathlib.Core.Path.{subst}
use armored_witness_applet.Prelude.{
  ℕ, zero, suc, ◌+◌, ◌-◌, ◌*◌, ◌/◌, ◌<◌, ◌≤◌, ◌≡◌, ◌⊎◌, refl, sym, ap, ◌∙◌, List, [], ◌∷◌, ◌++◌,
  arith, length, replicate, length-replicate,
}
use armored_witness_applet.Result.{Result, ok, err, panic, out_of_fuel}
use armored_witness_applet.Device.Stream.{stream}
use armored_witness_applet.Device.Laws.{IsBlockStore}
use armored_witness_applet.MemDev.{Storage, mem_dev}
use armored_witness_applet.MemDev.Loops.{content, IsStorage}
use armored_witness_applet.Mmc.{System, device}
use armored_witness_applet.Mmc.Writes.{IsSystem}
use armored_witness_applet.Mmc.Transfers.{device-IsBlockStore}
use armored_witness_applet.Tests.{disk_laws}

-- An operating system over the device in memory
abbrev sent : Result ℕ × Storage → Result (Unit {0}) × Storage
sent (ok n, s) = (ok tt, s)
sent (err e, s) = (err e, s)
sent (panic, s) = (panic, s)
sent (out_of_fuel, s) = (out_of_fuel, s)

abbrev memory_write : Storage → ℕ → List ℕ → Result (Unit {0}) × Storage
memory_write s lba [] = (ok tt, s)
memory_write s lba (x ∷ xs) = sent (mem_dev.write_blocks s lba (x ∷ xs))

abbrev memory_system : System Storage
memory_system = record {
  write_blocks = memory_write;
  read = λ s offset size. mem_dev.read_blocks s (offset / 512) (replicate size 0);
}

sent-state : (r : Result ℕ × Storage) → (sent r).1 ≡ r.1
sent-state (ok n, s) = refl
sent-state (err e, s) = refl
sent-state (panic, s) = refl
sent-state (out_of_fuel, s) = refl

sent-ok : (r : Result ℕ × Storage) → (sent r).0 ≡ ok tt → (n : ℕ) × (r.0 ≡ ok n)
sent-ok (ok n, s) h = (n, refl)
sent-ok (err e, s) h = cc
sent-ok (panic, s) h = cc
sent-ok (out_of_fuel, s) h = cc

memory_valid :
    (s : Storage) (lba n : ℕ) (b : List ℕ)
    → IsStorage 3 s
    → length b ≡ n * 512
    → lba + n ≤ 3
    → IsStorage 3 (memory_write s lba b).1
unfolding mem_dev
memory_valid s lba n [] v size fit = v
memory_valid s lba n (x ∷ xs) v size fit =
    subst (IsStorage 3) (sym (sent-state (mem_dev.write_blocks s lba (x ∷ xs))))
      (disk_laws.write_valid s lba (x ∷ xs) n v (omega arith) (omega arith) fit)

memory_stored :
    (s : Storage) (lba n : ℕ) (b : List ℕ)
    → IsStorage 3 s
    → length b ≡ n * 512
    → lba + n ≤ 3
    → (memory_write s lba b).0 ≡ ok tt
    → stream (content (memory_write s lba b).1) lba n ≡ b
unfolding mem_dev
memory_stored s lba zero [] v size fit done = refl
memory_stored s lba (suc n) [] v size fit done = absurd (omega arith)
memory_stored s lba n (x ∷ xs) v size fit done =
    let r = mem_dev.write_blocks s lba (x ∷ xs) in
    let (m, wrote) = sent-ok r done in
    ap (λ q. stream (content q) lba n) (sent-state r)
    ∙ (disk_laws.write_ok s lba (x ∷ xs) n m v wrote (omega arith) (omega arith) fit).1
    ∙ ap (λ k. (x ∷ xs) ++ replicate k 0) {x = n * 512 - length (x ∷ xs)} {y = 0} (omega arith)
    ∙ append-nil (x ∷ xs)

memory_frame :
    (s : Storage) (lba n : ℕ) (b : List ℕ) (i : ℕ)
    → IsStorage 3 s
    → length b ≡ n * 512
    → lba + n ≤ 3
    → (i < lba) ⊎ (lba + n ≤ i)
    → i < 3
    → content (memory_write s lba b).1 i ≡ content s i
unfolding mem_dev
memory_frame s lba n [] i v size fit apart inside = refl
memory_frame s lba n (x ∷ xs) i v size fit apart inside =
    ap (λ q. content q i) (sent-state (mem_dev.write_blocks s lba (x ∷ xs)))
    ∙ disk_laws.write_frame s lba (x ∷ xs) n i v (omega arith) (omega arith) fit apart inside

memory_system-IsSystem : IsSystem memory_system 512 3 (IsStorage 3) content
unfolding mem_dev
memory_system-IsSystem = record {
  length-block = λ s i v h. v.sizes i h;
  read_ok = λ s lba n v some fit.
      ap (λ k. mem_dev.read_blocks s k (replicate (n * 512) 0)) (mul-div_left lba (omega arith))
      ∙ disk_laws.read_ok s lba n (replicate (n * 512) 0) v some fit
          (length-replicate {A = ℕ} (n * 512) 0);
  read_past = λ s lba n v some h.
      (let (e, failed) =
          disk_laws.read_past s lba n (replicate (n * 512) 0) v some h
            (length-replicate {A = ℕ} (n * 512) 0) in
        (
          e,
          ap (λ k. mem_dev.read_blocks s k (replicate (n * 512) 0)) (mul-div_left lba (omega arith))
              ∙ failed,
        ));
  write_valid = memory_valid;
  write_ok = memory_stored;
  write_frame = memory_frame;
}

device-IsBlockStore_example : IsBlockStore (device memory_system 512) 3 (IsStorage 3) content
device-IsBlockStore_example =
    device-IsBlockStore memory_system-IsSystem (omega arith) 64 (omega arith) refl (omega arith)
