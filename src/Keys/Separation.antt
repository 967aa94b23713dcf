-- ===== src/Keys/Separation.antt =====
-- trusted_applet/key.go: the diversifiers of the keys.
use armored_witness_applet.Prelude.{
  ℕ, ◌≡◌, ◌≢◌, refl, ap, List, [], ◌∷◌, ◌++◌, arith, Bool, true, false, decimal, decimal_injective,
  codes, drop, ◌↔◌,
}
use armored_witness_applet.Keys.{
  Status, key_prefix, witness_diversifier, attest_diversifier, bastion_diversifier,
}

first : List ℕ → ℕ
first [] = 0
first (c ∷ s) = c

-- The same, for the values of the two bits and the counters.
diversifiers_cases :
    (h k : Bool) (a b : ℕ)
    → (key_prefix h ++ (codes "WitnessKey-id:" ++ decimal a)
        ≢ key_prefix k ++ codes "ID-Attestation")
      × (key_prefix h ++ (codes "WitnessKey-id:" ++ decimal a)
          ≢ key_prefix k ++ codes "BastionKey-id:0")
      × (key_prefix h ++ codes "ID-Attestation" ≢ key_prefix k ++ codes "BastionKey-id:0")
      × (key_prefix h ++ (codes "WitnessKey-id:" ++ decimal a)
            ≡ key_prefix k ++ (codes "WitnessKey-id:" ++ decimal b)
          → (a ≡ b) × (h ≡ k))
unfolding key_prefix first
diversifiers_cases true true a b = (
  λ e. omega (arith, ap first e),
  λ e. omega (arith, ap first e),
  λ e. omega (arith, ap first e),
  λ e. (decimal_injective a b (ap (drop 14) e), refl),
)
diversifiers_cases false false a b = (
  λ e. omega (arith, ap (λ l. first (drop 4 l)) e),
  λ e. omega (arith, ap (λ l. first (drop 4 l)) e),
  λ e. omega (arith, ap (λ l. first (drop 4 l)) e),
  λ e. (decimal_injective a b (ap (drop 18) e), refl),
)
diversifiers_cases true false a b = (
  λ e. omega (arith, ap first e),
  λ e. omega (arith, ap first e),
  λ e. omega (arith, ap first e),
  λ e. absurd (omega (arith, ap first e)),
)
diversifiers_cases false true a b = (
  λ e. omega (arith, ap first e),
  λ e. omega (arith, ap first e),
  λ e. omega (arith, ap first e),
  λ e. absurd (omega (arith, ap first e)),
)

-- The three keys have different diversifiers, whatever the states of the device, and that of the
-- witness key is the same only under the same counter and the same state of secure boot.
pub diversifiers_apart :
    (s t : Status)
    → (witness_diversifier s ≢ attest_diversifier t)
      × (witness_diversifier s ≢ bastion_diversifier t)
      × (attest_diversifier s ≢ bastion_diversifier t)
      × ((witness_diversifier s ≡ witness_diversifier t)
          ↔ ((s.identity_counter ≡ t.identity_counter) × (s.hab ≡ t.hab)))
unfolding witness_diversifier attest_diversifier bastion_diversifier key_prefix
diversifiers_apart s t =
    let (one, two, three, four) =
      diversifiers_cases s.hab t.hab s.identity_counter t.identity_counter in
    (one, two, three, (four, λ (a, b). rw (a, b) refl))
