-- ===== src/Prelude/Strings.antt =====
-- Texts as lists of characters, and the verb `%d` of Go's `fmt` on a number that is not negative.
use Prim.Native.Nat.{ℕ, zero, suc, ◌+◌, ◌-◌, ◌*◌, ◌/◌, ◌%◌, ◌<◌}
use Prim.Native.Char.{code}
use Prim.Native.String.{String}
use mathlib.Core.Path.{◌≡◌, refl, sym, ap, ◌∙◌}
use mathlib.Core.List.{List, [], ◌∷◌}
use native.Mathlib.Omega.{arith}
use armored_witness_applet.Prelude.Tests.{ltb, if◌then◌else◌}

abbrev pub Text : Type 0
Text = List ℕ

-- The characters of a literal.
abbrev pub codes : String → Text
codes String.[] = []
codes (String.◌∷◌ c s) = code c ∷ codes s

-- the digits of `n` in front of a text
unfoldable pub digits : ℕ → ℕ → Text → Text
digits zero n out = out
digits (suc fuel) n out =
    let more = digits fuel (n / 10) ((b'0' + n % 10) ∷ out) in
    if ltb n 10 then (b'0' + n) ∷ out else more

unfoldable pub decimal : ℕ → Text
decimal n = digits (suc n) n []

-- The number that digits stand for, read behind `a`.
unfoldable pub number : ℕ → Text → ℕ
number a [] = a
number a (c ∷ s) = number (a * 10 + (c - b'0')) s

number-digits : (fuel n : ℕ) (out : Text) → n < fuel → number 0 (digits fuel n out) ≡ number n out
unfolding number digits
number-digits zero n out h = absurd (omega arith)
number-digits (suc fuel) n out h = ground (
  arith,
  number-digits fuel (n / 10) ((b'0' + n % 10) ∷ out),
  ap (λ k. number k out) (last_digit n),
)
  where
    last_digit : (n : ℕ) → n / 10 * 10 + (b'0' + n % 10 - b'0') ≡ n
    last_digit n = omega arith

-- A number is read back from its digits.
pub number-decimal : (n : ℕ) → number 0 (decimal n) ≡ n
unfolding decimal
number-decimal n = number-digits (suc n) n [] (omega arith) ∙ nil n
  where
    nil : (n : ℕ) → number n [] ≡ n
    nil n = unfold number in refl

-- No character of a text is the end of a line.
abbrev pub IsLine : Text → Type 0
IsLine [] = Unit
IsLine (c ∷ s) = (¬ (c ≡ 10)) × IsLine s

digits-IsLine : (fuel n : ℕ) (out : Text) → IsLine out → IsLine (digits fuel n out)
unfolding digits
digits-IsLine zero n out h = h
digits-IsLine (suc fuel) n out h =
    ground (arith, digits-IsLine fuel (n / 10) ((b'0' + n % 10) ∷ out) (omega arith, h))

pub decimal-IsLine : (n : ℕ) → IsLine (decimal n)
unfolding decimal
decimal-IsLine n = digits-IsLine (suc n) n [] tt

pub decimal_injective : (a b : ℕ) → decimal a ≡ decimal b → a ≡ b
decimal_injective a b e = sym (number-decimal a) ∙ ap (number 0) e ∙ number-decimal b
