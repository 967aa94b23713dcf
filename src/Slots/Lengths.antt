-- ===== src/Slots/Lengths.antt =====
-- trusted_applet/internal/storage/slots/slots.go: Geometry.
use armored_witness_applet.Prelude.{ℕ, ◌+◌, ◌%◌, List, [], ◌∷◌, ltb, if◌then◌else◌, word}
use armored_witness_applet.Result.{Result, ok, err, invalid_geometry}

pub record Geometry : Type 0 where
  pub start : ℕ
  pub extent : ℕ
  pub slot_lengths : List ℕ

-- the loop of `Validate`, from the total `t`
unfoldable pub total : ℕ → List ℕ → ℕ
total t [] = t
total t (l ∷ ls) = total ((t + l) % word) ls

unfoldable pub validate : Geometry → Result (Unit {0})
validate geo = if ltb geo.extent (total 0 geo.slot_lengths) then err invalid_geometry else ok tt
