-- ===== src/Keys/Stable.antt =====
-- trusted_applet/key.go: the keys that do not depend on the identity counter.
use mathlib.Core.Path.{subst, ap₂}
use armored_witness_applet.Prelude.{ℕ, ◌≡◌, sym, ap, ◌∙◌, List}
use armored_witness_applet.Result.{ok, bind-ok, ok-injective}
use armored_witness_applet.Keys.{
  Status, Crypto, Identity, derive_identity_keys, derive_note_signer, derive_ed25519,
  attest_diversifier, bastion_diversifier, attest_name, witness_diversifier, witness_name,
  attest_id, attest_bastion,
}

module _ {R : Type 0} (crypto : Crypto R) where
  -- Where the attestation key and the bastion key of an identity come from.
  record Comes (s : Status) (i : Identity) : Type 0 where
    attest :
        derive_note_signer crypto (attest_diversifier s) s.serial (attest_name crypto s)
        ≡ ok (i.attest_signing_key, i.attest_public_key)
    bastion_public : List ℕ
    bastion :
        derive_ed25519 crypto (bastion_diversifier s) s.serial
        ≡ ok (i.bastion_signing_key, bastion_public)
    bastion_note :
        attest_bastion crypto i.attest_signing_key s (crypto.hex (crypto.sha256 bastion_public))
        ≡ ok i.bastion_id_attestation

  derived-Comes : (s : Status) (i : Identity) → derive_identity_keys crypto s ≡ ok i → Comes s i
  unfolding derive_identity_keys
  derived-Comes s i h =
      let (w, _, h₁) =
        bind-ok (derive_note_signer crypto (witness_diversifier s) s.serial (witness_name crypto s))
          _ h in
      let (a, attest, h₂) =
        bind-ok (derive_note_signer crypto (attest_diversifier s) s.serial (attest_name crypto s)) _
          h₁ in
      let (n, _, h₃) = bind-ok (attest_id crypto a.0 w.1 s w.1) _ h₂ in
      let (b, bastion, h₄) =
        bind-ok (derive_ed25519 crypto (bastion_diversifier s) s.serial) _ h₃ in
      let (m, note, h₅) =
        bind-ok (attest_bastion crypto a.0 s (crypto.hex (crypto.sha256 b.1))) _ h₄ in
      subst (Comes s) (ok-injective h₅)
        (record { attest = attest; bastion_public = b.1; bastion = bastion; bastion_note = note })

  -- A new identity counter leaves the attestation key of the device as it is, and the key and the
  -- attestation of its bastion identity, too.
  pub derive_identity_keys-stable :
      (s : Status) (n : ℕ) (a b : Identity)
      → derive_identity_keys crypto s ≡ ok a
      → derive_identity_keys crypto (record s { identity_counter = n }) ≡ ok b
      → (a.attest_signing_key ≡ b.attest_signing_key)
        × (a.attest_public_key ≡ b.attest_public_key)
        × (a.bastion_signing_key ≡ b.bastion_signing_key)
        × (a.bastion_id_attestation ≡ b.bastion_id_attestation)
  unfolding attest_diversifier bastion_diversifier attest_name attest_bastion
  derive_identity_keys-stable s n a b first second =
      let x : Comes s a = derived-Comes s a first in
      let t : Status = record s { identity_counter = n } in
      let y : Comes t b = derived-Comes t b second in
      let attest : (a.attest_signing_key, a.attest_public_key)
          ≡ (b.attest_signing_key, b.attest_public_key) =
        ok-injective (sym x.attest ∙ y.attest) in
      let bastion : (a.bastion_signing_key, x.bastion_public)
          ≡ (b.bastion_signing_key, y.bastion_public) =
        ok-injective (sym x.bastion ∙ y.bastion) in
      let signed : attest_bastion crypto a.attest_signing_key s
            (crypto.hex (crypto.sha256 x.bastion_public))
          ≡ attest_bastion crypto b.attest_signing_key t
              (crypto.hex (crypto.sha256 y.bastion_public)) =
        ap₂ (λ k p. attest_bastion crypto k s (crypto.hex (crypto.sha256 p))) (ap (λ k. k.0) attest)
          (ap (λ k. k.1) bastion) in
      (
        ap (λ k. k.0) attest,
        ap (λ k. k.1) attest,
        ap (λ k. k.0) bastion,
        ok-injective (sym x.bastion_note ∙ signed ∙ y.bastion_note),
      )
