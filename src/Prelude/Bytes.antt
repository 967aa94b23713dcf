-- ===== src/Prelude/Bytes.antt =====
-- Byte strings and the fixed-width big-endian numbers of Go's `encoding/binary`.
use Prim.Native.Nat.{ℕ, ◌+◌, ◌*◌, ◌/◌, ◌%◌, ◌^◌, ◌<◌}
use mathlib.Core.Path.{◌≡◌, refl, sym, ap, ◌∙◌}
use mathlib.Core.Bool.{Bool, true, false, ◌&&◌}
use mathlib.Core.List.{List, [], ◌∷◌, ◌++◌, append-nil}
use native.Mathlib.Omega.{arith}
use armored_witness_applet.Prelude.Tests.{◌==◌}
use armored_witness_applet.Prelude.Lists.{length}

-- `uint` and `int` are 32 bits wide on the applet's target, GOARCH=arm.
abbrev pub word : ℕ
word = 2 ^ 32

abbrev pub bytes_equal : List ℕ → List ℕ → Bool
bytes_equal [] [] = true
bytes_equal [] (y ∷ ys) = false
bytes_equal (x ∷ xs) [] = false
bytes_equal (x ∷ xs) (y ∷ ys) = x == y && bytes_equal xs ys

pub bytes_equal_refl : (xs : List ℕ) → bytes_equal xs xs ≡ true
bytes_equal_refl [] = refl
bytes_equal_refl (x ∷ xs) = ground (arith, bytes_equal_refl xs)

pub bytes_equal_sound : (xs ys : List ℕ) → bytes_equal xs ys ≡ true → xs ≡ ys
bytes_equal_sound [] [] h = refl
bytes_equal_sound [] (y ∷ ys) h = cc
bytes_equal_sound (x ∷ xs) [] h = cc
bytes_equal_sound (x ∷ xs) (y ∷ ys) h = ground (arith, bytes_equal_sound xs ys)

unfoldable pub put_uint32 : ℕ → List ℕ
put_uint32 n = (n / 2 ^ 24 % 256) ∷ (n / 2 ^ 16 % 256) ∷ (n / 2 ^ 8 % 256) ∷ (n % 256) ∷ []

unfoldable pub get_uint : ℕ → List ℕ → ℕ
get_uint acc [] = acc
get_uint acc (b ∷ bs) = get_uint (acc * 256 + b) bs

unfoldable pub put_uint64 : ℕ → List ℕ
put_uint64 n = put_uint32 (n / 2 ^ 32) ++ put_uint32 (n % 2 ^ 32)

pub get-put_uint32 : (n : ℕ) → n < 2 ^ 32 → get_uint 0 (put_uint32 n) ≡ n
unfolding get_uint put_uint32
get-put_uint32 n h = omega arith

-- The accumulator is general, so that two words make a double word.
get_uint-put_uint32 :
    (a n : ℕ) (rest : List ℕ)
    → n < 2 ^ 32
    → get_uint a (put_uint32 n ++ rest) ≡ get_uint (a * 2 ^ 32 + n) rest
unfolding get_uint put_uint32
get_uint-put_uint32 a n rest h = ap (λ k. get_uint k rest) (omega arith)

pub get-put_uint64 : (n : ℕ) → n < 2 ^ 64 → get_uint 0 (put_uint64 n) ≡ n
unfolding put_uint64
get-put_uint64 n h =
    get_uint-put_uint32 0 (n / 2 ^ 32) (put_uint32 (n % 2 ^ 32)) (omega arith)
    ∙ ap (get_uint (0 * 2 ^ 32 + n / 2 ^ 32)) (sym (append-nil (put_uint32 (n % 2 ^ 32))))
    ∙ get_uint-put_uint32 (0 * 2 ^ 32 + n / 2 ^ 32) (n % 2 ^ 32) [] (omega arith)
    ∙ nil_lem
  where
    nil_lem : get_uint ((0 * 2 ^ 32 + n / 2 ^ 32) * 2 ^ 32 + n % 2 ^ 32) [] ≡ n
    nil_lem = unfold get_uint in omega arith

pub length-put_uint32 : (n : ℕ) → length (put_uint32 n) ≡ 4
unfolding put_uint32
length-put_uint32 n = refl

pub length-put_uint64 : (n : ℕ) → length (put_uint64 n) ≡ 8
unfolding put_uint64 put_uint32
length-put_uint64 n = refl
