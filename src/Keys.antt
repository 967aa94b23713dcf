-- ===== src/Keys.antt =====
-- trusted_applet/key.go: the identities of the device, and the notes that attest to them.
pub mod Separation
pub mod Notes
pub mod Stable
use armored_witness_applet.Prelude.{
  ℕ, ◌+◌, ◌*◌, List, [], ◌∷◌, ◌++◌, Bool, Option, none, some, if◌then◌else◌, take, Text, codes,
  decimal,
}
use armored_witness_applet.Result.{
  Result, ok, err, panic, ◌>>=◌, derive_key_failed, name_entropy_failed, note_key_failed,
  ed25519_failed,
}

-- what the code reads of the OS's Status
pub record Status : Type 0 where
  pub serial : Text
  pub hab : Bool
  pub identity_counter : ℕ

-- What the code calls: the RPC DeriveKey of the operating system, SHA-256, HKDF, and the packages
-- for notes, for ed25519 and for names. `R` is a reader, and `none` an error.
pub record Crypto (R : Type 0) : Type 0 where
  pub sha256 : List ℕ → List ℕ
  pub derive_key : List ℕ → Option (List ℕ)
  pub hkdf : List ℕ → Text → R
  pub read : ℕ → R → Option (List ℕ × R)
  pub generate_name : ℕ → Text
  pub generate_note_key : R → Text → Option (Text × Text)
  pub generate_ed25519 : R → Option (List ℕ × List ℕ)
  pub new_signer : Text → Option Text
  pub sign_note : Text → Text → Option Text
  pub hex : List ℕ → Text

-- The variables of the package that deriveIdentityKeys sets.
pub record Identity : Type 0 where
  pub witness_signing_key : Text
  pub witness_public_key : Text
  pub attest_signing_key : Text
  pub attest_public_key : Text
  pub witness_public_key_attestation : Text
  pub bastion_signing_key : List ℕ
  pub bastion_id_attestation : Text

abbrev pub aes_block_size : ℕ
aes_block_size = 16

unfoldable pub key_prefix : Bool → Text
key_prefix hab = if hab then [] else codes "DEV:"

-- the diversifiers of the three keys
unfoldable pub witness_diversifier : Status → Text
unfolding key_prefix
witness_diversifier s = key_prefix s.hab ++ (codes "WitnessKey-id:" ++ decimal s.identity_counter)

unfoldable pub attest_diversifier : Status → Text
unfolding key_prefix
attest_diversifier s = key_prefix s.hab ++ codes "ID-Attestation"

unfoldable pub bastion_diversifier : Status → Text
unfolding key_prefix
bastion_diversifier s = key_prefix s.hab ++ codes "BastionKey-id:0"

-- the texts of the notes that attestID and attestBastion sign
unfoldable pub id_attestation : Text → ℕ → Text → Text
id_attestation serial counter key =
    codes "ArmoredWitness ID attestation v1\n"
    ++ (serial ++ (10 ∷ (decimal counter ++ (10 ∷ (key ++ (10 ∷ []))))))

unfoldable pub bastion_attestation : Text → ℕ → Text → Text
bastion_attestation serial counter id =
    codes "ArmoredWitness BastionID attestation v1\n"
    ++ (serial ++ (10 ∷ (decimal counter ++ (10 ∷ (id ++ (10 ∷ []))))))

-- `log.Fatalf` ends the applet: it is an error here.
module _ {R : Type 0} (crypto : Crypto R) where
  unfoldable pub derive_hkdf : Text → Text → Result R
  derive_hkdf diversifier unique_id =
      elim (crypto.derive_key (take aes_block_size (crypto.sha256 diversifier))) [
        | none ↦ err derive_key_failed
        | some key ↦ ok (crypto.hkdf key unique_id)
      ]

  -- `binary.LittleEndian.Uint64`, of the 8 bytes that are read
  unfoldable pub little_endian : List ℕ → ℕ
  little_endian [] = 0
  little_endian (b ∷ bs) = b + 256 * little_endian bs

  unfoldable pub random_name : R → Result (Text × R)
  random_name r = elim (crypto.read 8 r) [
    | none ↦ err name_entropy_failed
    | some (seed, r') ↦ ok (crypto.generate_name (little_endian seed), r')
  ]

  -- The name of the key is made first, and may read from the same reader.
  unfoldable pub derive_note_signer : Text → Text → (R → Result (Text × R)) → Result (Text × Text)
  derive_note_signer diversifier unique_id key_name = derive_hkdf diversifier unique_id >>= λ r.
      key_name r >>= λ named.
      elim (crypto.generate_note_key named.1 named.0) as (λ _. Result (Text × Text)) [
        | none ↦ err note_key_failed
        | some keys ↦ ok keys
      ]

  unfoldable pub derive_ed25519 : Text → Text → Result (List ℕ × List ℕ)
  derive_ed25519 diversifier unique_id = derive_hkdf diversifier unique_id >>= λ r.
      elim (crypto.generate_ed25519 r) as (λ _. Result (List ℕ × List ℕ)) [
        | none ↦ err ed25519_failed
        | some (pub_key, priv) ↦ ok (priv, pub_key)
      ]

  -- `attestNote`, with the key that it takes from the package's variable
  unfoldable pub attest_note : Text → Text → Result Text
  attest_note signing_key text = elim (crypto.new_signer signing_key) [
    | none ↦ panic
    | some signer ↦ elim (crypto.sign_note text signer) [ none ↦ panic | some note ↦ ok note ]
  ]

  -- `attestID`: the key in the note is the package's variable, not the argument `pubkey`.
  unfoldable pub attest_id : Text → Text → Status → Text → Result Text
  attest_id signing_key witness_public_key s pubkey =
      attest_note signing_key (id_attestation s.serial s.identity_counter witness_public_key)

  unfoldable pub attest_bastion : Text → Status → Text → Result Text
  attest_bastion signing_key s bastion_id =
      attest_note signing_key (bastion_attestation s.serial 0 bastion_id)

  unfoldable pub witness_name : Status → R → Result (Text × R)
  witness_name s r =
      random_name r >>= λ n. ok (key_prefix s.hab ++ (codes "ArmoredWitness-" ++ n.0), n.1)

  unfoldable pub attest_name : Status → R → Result (Text × R)
  attest_name s r = ok (key_prefix s.hab ++ (codes "AW-ID-Attestation-" ++ s.serial), r)

  -- `deriveIdentityKeys`, once the OS has returned its status
  unfoldable pub derive_identity_keys : Status → Result Identity
  derive_identity_keys s =
      derive_note_signer (witness_diversifier s) s.serial (witness_name s) >>= λ witness.
      derive_note_signer (attest_diversifier s) s.serial (attest_name s) >>= λ attest.
      attest_id attest.0 witness.1 s witness.1 >>= λ attestation.
      derive_ed25519 (bastion_diversifier s) s.serial >>= λ bastion.
      attest_bastion attest.0 s (crypto.hex (crypto.sha256 bastion.1)) >>= λ bastion_note.
      ok (record {
        witness_signing_key = witness.0;
        witness_public_key = witness.1;
        attest_signing_key = attest.0;
        attest_public_key = attest.1;
        witness_public_key_attestation = attestation;
        bastion_signing_key = bastion.0;
        bastion_id_attestation = bastion_note;
      })
