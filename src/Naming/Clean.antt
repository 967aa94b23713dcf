-- ===== src/Naming/Clean.antt =====
-- trusted_applet/main.go: cleanForDNS.
use armored_witness_applet.Prelude.{
  ℕ, suc, ◌≡◌, codes, refl, sym, ap, ◌∙◌, Bool, true, false, [], ◌∷◌, Text, length, ◌↔◌,
  if◌then◌else◌,
}
use armored_witness_applet.Naming.{allowed, clean_for_dns}

head : Text → ℕ
head [] = 0
head (c ∷ s) = c

tail : Text → Text
tail [] = []
tail (c ∷ s) = s

-- Each character of a text is a letter, a digit or a hyphen.
abbrev pub IsLabel : Text → Type 0
IsLabel [] = Unit
IsLabel (c ∷ s) = (allowed c ≡ true) × IsLabel s

abbrev Cleans : Text → Text → Type 0
Cleans s t = IsLabel t × (length t ≡ length s) × ((t ≡ s) ↔ IsLabel s)

hyphen : allowed b'-' ≡ true
unfolding allowed
hyphen = refl

-- one more character, which is replaced unless it is allowed
cons-Cleans :
    (c : ℕ) (s t : Text) (b : Bool)
    → allowed c ≡ b
    → Cleans s t
    → Cleans (c ∷ s) ((if b then c else b'-') ∷ t)
unfolding head tail
cons-Cleans c s t true e (label, size, same) =
    ((e, label), ap suc size, (λ h. (e, same.0 (ap tail h)), λ h. ap (λ r. c ∷ r) (same.1 h.1)))
cons-Cleans c s t false e (label, size, same) =
    ((hyphen, label), ap suc size, (λ h. absurd (differs (ap head h)), λ h. absurd (cc (h.0))))
  where
    differs : b'-' ≡ c → ⊥
    differs h = cc (sym e ∙ ap allowed (sym h) ∙ hyphen)

-- The name that is made has letters, digits and hyphens only, and as many characters as the one
-- that it is made of, and it is that one exactly where that has no other characters.
pub clean_for_dns_lem :
    (s : Text)
    → IsLabel (clean_for_dns s)
      × (length (clean_for_dns s) ≡ length s)
      × ((clean_for_dns s ≡ s) ↔ IsLabel s)
unfolding clean_for_dns
clean_for_dns_lem [] = (tt, refl, (λ e. tt, λ e. refl))
clean_for_dns_lem (c ∷ s) = cons-Cleans c s (clean_for_dns s) (allowed c) refl (clean_for_dns_lem s)

pub allowed-armoredwitness : IsLabel (codes "armoredwitness")
unfolding allowed
allowed-armoredwitness = (
  refl,
  (
    refl,
    (
      refl,
      (refl, (refl, (refl, (refl, (refl, (refl, (refl, (refl, (refl, (refl, (refl, tt))))))))))),
    ),
  ),
)
