-- ===== src/Tests/Identity.antt =====
-- Tests of the keys and of the start of the applet.
use armored_witness_applet.Boot.Reports.{reported, handled, Identified, main_calls, main_calls_lem}
use armored_witness_applet.Naming.{mac, mac_text}
use armored_witness_applet.Prelude.{
  ℕ, ◌≡◌, refl, [], ◌∷◌, ◌++◌, none, some, true, Text, codes, ◌↔◌, ◌≢◌, arith,
}
use armored_witness_applet.Result.{Result, ok}
use armored_witness_applet.Keys.{
  Status, Crypto, Identity, derive_identity_keys, id_attestation, bastion_attestation,
  derive_note_signer, derive_ed25519, derive_hkdf, random_name, little_endian, attest_note,
  attest_id, attest_bastion, witness_name, attest_name,
}
use armored_witness_applet.Keys.Notes.{attestations_injective}
use armored_witness_applet.Keys.Stable.{derive_identity_keys-stable}
use armored_witness_applet.Tests.Network.{calls, config}
use armored_witness_applet.Naming.Clean.{IsLabel}
use armored_witness_applet.Networking.{Configuration, start_networking, set_up, bare_interface}
use armored_witness_applet.Slots.{Partition}
use armored_witness_applet.Persistence.{World, new_slot_persistence}
use armored_witness_applet.Boot.{
  System, Started, start, check_version, answered_config, hostname_of, default_configuration,
}
use armored_witness_applet.Boot.Ready.{start-ok}

-- Primitives that pass on what they are given
abbrev crypto : Crypto Text
crypto = record {
  sha256 = λ t. t;
  derive_key = λ d. some d;
  hkdf = λ key id. key ++ id;
  read = λ n r. some (1 ∷ 2 ∷ [], r);
  generate_name = λ n. n ∷ [];
  generate_note_key = λ r name. some (r, name);
  generate_ed25519 = λ r. some (1 ∷ r, 2 ∷ r);
  new_signer = λ k. some k;
  sign_note = λ text signer. some (text ++ signer);
  hex = λ t. t;
}

abbrev status : Status
status = record { serial = codes "1234"; hab = true; identity_counter = 3 }

-- the identity under a counter
identity : ℕ → Identity
identity n = elim (derive_identity_keys crypto (record status { identity_counter = n })) [
  | ok i ↦ i
  | _ ↦ record {
    witness_signing_key = [];
    witness_public_key = [];
    attest_signing_key = [];
    attest_public_key = [];
    witness_public_key_attestation = [];
    bastion_signing_key = [];
    bastion_id_attestation = [];
  }
]

derived :
    (n : ℕ) → derive_identity_keys crypto (record status { identity_counter = n }) ≡ ok (identity n)
unfolding identity derive_identity_keys derive_note_signer derive_ed25519 derive_hkdf random_name
    little_endian attest_note attest_id attest_bastion witness_name attest_name
derived n = refl

derive_identity_keys-stable_example :
    ((identity 3).attest_signing_key ≡ (identity 4).attest_signing_key)
    × ((identity 3).attest_public_key ≡ (identity 4).attest_public_key)
    × ((identity 3).bastion_signing_key ≡ (identity 4).bastion_signing_key)
    × ((identity 3).bastion_id_attestation ≡ (identity 4).bastion_id_attestation)
derive_identity_keys-stable_example =
    derive_identity_keys-stable crypto status 4 (identity 3) (identity 4) (derived 3) (derived 4)

-- Two serial numbers, of which one begins the other, and two counters
abbrev one_serial : Text
one_serial = codes "1"

abbrev other_serial : Text
other_serial = codes "12"

abbrev counter : ℕ
counter = 2

abbrev other_counter : ℕ
other_counter = 0

abbrev key : Text
key = codes "k"

attestations_injective_example :
    ((id_attestation one_serial counter key ≡ id_attestation other_serial other_counter key)
      ↔ ((one_serial ≡ other_serial) × (counter ≡ other_counter) × (key ≡ key)))
    × ((bastion_attestation one_serial counter key
          ≡ bastion_attestation other_serial other_counter key)
        ↔ ((one_serial ≡ other_serial) × (counter ≡ other_counter) × (key ≡ key)))
    × (id_attestation one_serial counter key ≢ bastion_attestation other_serial other_counter key)
attestations_injective_example =
    attestations_injective one_serial other_serial counter other_counter key key
      (λ e. omega arith, tt) (λ e. omega arith, (λ e. omega arith, tt))

-- A system that accepts the version and answers, with a partition of no slots that is left as it is
abbrev os : System
os = record {
  accepts_version = true;
  config = λ c. some (1 ∷ []);
  unmarshal_config = λ b c. some (config true);
  status = some status;
}

abbrev no_slots : Partition
no_slots = record { slots = [] }

abbrev at_end : Started ℕ ℕ
at_end = record {
  cfg = config true;
  identity = identity 3;
  net = 7;
  storage = record { per = new_slot_persistence no_slots; store = 0 };
  client_id = codes "AW-" ++ status.serial;
  hostname = codes "armoredwitness";
}

abbrev no_init : World ℕ → Result (Unit {0}) × World ℕ
no_init w = (ok tt, w)

starts : start os crypto calls (λ k. none) (ok no_slots) no_init 0 0 ≡ ok at_end
unfolding start check_version answered_config start_networking set_up bare_interface mac mac_text
    hostname_of
starts = rw (derived 3) refl

start-ok_example :
    (os.accepts_version ≡ true)
    × ((s : Status) × (os.status ≡ some s) × (derive_identity_keys crypto s ≡ ok at_end.identity))
    × (start_networking calls at_end.cfg 0 ≡ ok at_end.net)
    × ((part : Partition) × (ok no_slots ≡ ok part)
        × (no_init (record { per = new_slot_persistence part; store = 0 })
            ≡ (ok tt, at_end.storage)))
    × IsLabel at_end.hostname
start-ok_example = start-ok os crypto calls (λ k. none) (ok no_slots) no_init 0 0 at_end starts

answered :
    answered_config os default_configuration (os.config default_configuration) ≡ ok (config true)
unfolding answered_config
answered = refl

main_calls_lem_example :
    let log = (main_calls os crypto calls (λ k. none) (ok no_slots) no_init 0 0).0 in
    ((reported log ≡ some (identity 3))
      ↔ ((cfg : Configuration) × (s : Status) × Identified os crypto cfg s (identity 3)))
    × ((handled log ≡ true) ↔ (
        (cfg : Configuration) × (s : Status) × (i : Identity) × (net : ℕ) × Identified os crypto cfg
          s i
        × (start_networking calls cfg 0 ≡ ok net)))
main_calls_lem_example =
    main_calls_lem os crypto calls (λ k. none) (ok no_slots) no_init 0 0 (identity 3)
