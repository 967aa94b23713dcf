-- ===== src/Keys/Notes.antt =====
-- trusted_applet/key.go: the texts of the attestations.
use armored_witness_applet.Prelude.{
  ℕ, ◌≡◌, ◌≢◌, refl, sym, ap, ◌∙◌, [], ◌∷◌, ◌++◌, arith, ◌==◌, if◌then◌else◌, Text, decimal,
  decimal_injective, decimal-IsLine, IsLine, drop, get_or, ◌↔◌,
}
use armored_witness_applet.Keys.{id_attestation, bastion_attestation}

-- The text up to the end of its first line, and what is behind it.
first_line : Text → Text
first_line [] = []
first_line (c ∷ s) = let rest = first_line s in if c == 10 then [] else c ∷ rest

behind_line : Text → Text
behind_line [] = []
behind_line (c ∷ s) = let rest = behind_line s in if c == 10 then s else rest

first_line-append : (a b : Text) → IsLine a → first_line (a ++ (10 ∷ b)) ≡ a
unfolding first_line
first_line-append [] b h = refl
first_line-append (c ∷ a) b h = ground (arith, first_line-append a b h.1)

behind_line-append : (a b : Text) → IsLine a → behind_line (a ++ (10 ∷ b)) ≡ b
unfolding behind_line
behind_line-append [] b h = refl
behind_line-append (c ∷ a) b h = ground (arith, behind_line-append a b h.1)

-- A text without its last character.
chop : Text → Text
chop [] = []
chop (c ∷ []) = []
chop (c ∷ d ∷ s) = c ∷ chop (d ∷ s)

chop-append : (a : Text) → chop (a ++ (10 ∷ [])) ≡ a
unfolding chop
chop-append [] = refl
chop-append (c ∷ []) = refl
chop-append (c ∷ d ∷ a) = ap (◌∷◌ c) (chop-append (d ∷ a))

-- Three lines tell what is on them, if the first has no line break.
lines_injective :
    (s s' : Text) (c c' : ℕ) (k k' : Text)
    → IsLine s
    → IsLine s'
    → s ++ (10 ∷ (decimal c ++ (10 ∷ (k ++ (10 ∷ [])))))
      ≡ s' ++ (10 ∷ (decimal c' ++ (10 ∷ (k' ++ (10 ∷ [])))))
    → (s ≡ s') × (c ≡ c') × (k ≡ k')
lines_injective s s' c c' k k' h h' e =
    let tail : Text = decimal c ++ (10 ∷ (k ++ (10 ∷ []))) in
    let tail' : Text = decimal c' ++ (10 ∷ (k' ++ (10 ∷ []))) in
    let rest : tail ≡ tail' =
      sym (behind_line-append s tail h) ∙ ap behind_line e ∙ behind_line-append s' tail' h' in
    let last : k ++ (10 ∷ []) ≡ k' ++ (10 ∷ []) =
      sym (behind_line-append (decimal c) (k ++ (10 ∷ [])) (decimal-IsLine c))
      ∙ ap behind_line rest
      ∙ behind_line-append (decimal c') (k' ++ (10 ∷ [])) (decimal-IsLine c') in
    (
      sym (first_line-append s tail h) ∙ ap first_line e ∙ first_line-append s' tail' h',
      decimal_injective c c' (
          sym (first_line-append (decimal c) (k ++ (10 ∷ [])) (decimal-IsLine c))
          ∙ ap first_line rest
          ∙ first_line-append (decimal c') (k' ++ (10 ∷ [])) (decimal-IsLine c')),
      sym (chop-append k) ∙ ap chop last ∙ chop-append k',
    )

-- The text of an ID attestation tells the serial number, the counter and the key that it binds, and
-- is not that of a bastion attestation, which tells its parts, too. The serial numbers have no line
-- break.
pub attestations_injective :
    (s s' : Text) (c c' : ℕ) (k k' : Text)
    → IsLine s
    → IsLine s'
    → ((id_attestation s c k ≡ id_attestation s' c' k') ↔ ((s ≡ s') × (c ≡ c') × (k ≡ k')))
      × ((bastion_attestation s c k ≡ bastion_attestation s' c' k')
          ↔ ((s ≡ s') × (c ≡ c') × (k ≡ k')))
      × (id_attestation s c k ≢ bastion_attestation s' c' k')
unfolding id_attestation bastion_attestation
attestations_injective s s' c c' k k' h h' = (
  (
    λ e. lines_injective s s' c c' k k' h h' (ap (drop 33) e),
    λ (a, b, d). same id_attestation a b d,
  ),
  (
    λ e. lines_injective s s' c c' k k' h h' (ap (drop 40) e),
    λ (a, b, d). same bastion_attestation a b d,
  ),
  λ e. omega (arith, ap (λ l. get_or l 15 0) e),
)
  where
    same : (f : Text → ℕ → Text → Text) → s ≡ s' → c ≡ c' → k ≡ k' → f s c k ≡ f s' c' k'
    same f a b d = rw (a, b, d) refl
