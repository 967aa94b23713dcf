-- ===== src/Result.antt =====
-- What a Go function of the applet returns: a value, an error, or no return at all.
use mathlib.Core.Path.{◌≡◌, refl}

-- The errors, one for each message that the code builds. A wrapped cause is not kept.
pub data Error : Type 0 where
  -- of a block device: an address past its end, a failed call of the operating system
  lba_out_of_range syscall_failed : Error
  -- unmarshalEntry and marshalEntry
  read_magic invalid_magic read_revision zero_revision read_data_len read_data_sha256 : Error
  read_data incorrect_sha256 : Error
  -- Journal
  too_large marshal_failed write_blocks_failed same_revision : Error
  -- Partition and Slot
  invalid_geometry invalid_slot erase_failed open_journal_failed invalid_token : Error
  -- SlotPersistence
  open_mapping_slot populate_failed read_failed unmarshal_mapping reserved_slot_used : Error
  no_slot_for_log assign_slot open_log_slot no_checkpoint unmarshal_checkpoint : Error
  update_refused write_failed marshal_mapping store_mapping no_free_slot : Error
  -- the keys
  derive_key_failed name_entropy_failed note_key_failed ed25519_failed : Error
  -- the updater, and the verification of firmware
  log_url_invalid invalid_log_verifier invalid_applet_verifier invalid_os_verifier_1 : Error
  invalid_os_verifier_2 binaries_url_invalid new_fetcher_failed new_updater_failed : Error
  open_manifest_failed unmarshal_manifest_failed bundle_rejected not_updatable : Error
  -- requests over HTTP
  url_invalid request_failed not_exist unexpected_status : Error
  -- the network, and the start of the applet
  status_failed invalid_mac create_nic_failed init_failed dns_cache_failed : Error
  version_refused invalid_configuration cannot_start_networking no_persistence : Error
  no_address admin_listener_failed main_listener_failed witness_failed context_done
        registration_failed :
      Error

-- `panic` is a run-time panic. `out_of_fuel` marks a loop of the model that was cut short.
pub data Result {ℓ} (A : Type ℓ) : Type ℓ where
  ok : A → Result A
  err : Error → Result A
  panic : Result A
  out_of_fuel : Result A

infixl 5 ◌>>=◌
abbrev pub ◌>>=◌ {ℓ κ} : {A : Type ℓ} {B : Type κ} → Result A → (A → Result B) → Result B
ok a >>= f = f a
err e >>= f = err e
panic >>= f = panic
out_of_fuel >>= f = out_of_fuel

-- `if err != nil { return fmt.Errorf(…) }`: the same outcome under another message.
abbrev pub wrap {ℓ} : {A : Type ℓ} → Error → Result A → Result A
wrap e (ok a) = ok a
wrap e (err _) = err e
wrap e panic = panic
wrap e out_of_fuel = out_of_fuel

abbrev pub IsErr {ℓ} : {A : Type ℓ} → Result A → Type 0
IsErr (ok a) = ⊥
IsErr (err e) = Unit
IsErr panic = ⊥
IsErr out_of_fuel = ⊥

-- A chain that succeeds: its first step does, and the rest does on its outcome.
pub bind-ok :
    {A B : Type 0} (r : Result A) (f : A → Result B) {b : B}
    → (r >>= f) ≡ ok b
    → (a : A) × (r ≡ ok a) × (f a ≡ ok b)
bind-ok (ok a) f h = (a, refl, h)
bind-ok (err e) f h = cc
bind-ok panic f h = cc
bind-ok out_of_fuel f h = cc

-- The same, for a goal `P`.
pub from_bind :
    {A B P : Type 0} (r : Result A) (f : A → Result B) {b : B}
    → (r >>= f) ≡ ok b
    → ((a : A) → r ≡ ok a → f a ≡ ok b → P)
    → P
from_bind r f h k = let (a, e, g) = bind-ok r f h in k a e g

pub wrap-ok : {A : Type 0} (e : Error) (r : Result A) {a : A} → wrap e r ≡ ok a → r ≡ ok a
wrap-ok e (ok a) h = h
wrap-ok e (err x) h = cc
wrap-ok e panic h = cc
wrap-ok e out_of_fuel h = cc

pub ok-injective : {A : Type 0} {a b : A} → ok a ≡ ok b → a ≡ b
ok-injective e = cc
