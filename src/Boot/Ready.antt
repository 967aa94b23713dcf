-- ===== src/Boot/Ready.antt =====
-- trusted_applet/main.go: what holds once the applet has started.
use mathlib.Core.Path.{subst}
use armored_witness_applet.Prelude.{
  ◌≡◌, refl, ap, Option, none, some, Bool-cases, true, false, Text, inl, inr,
}
use armored_witness_applet.Result.{
  Result, ok, err, wrap, from_bind, wrap-ok, ok-injective, version_refused, status_failed,
  cannot_start_networking, no_persistence,
}
use armored_witness_applet.Keys.{Status, Crypto, derive_identity_keys}
use armored_witness_applet.Naming.Clean.{IsLabel, clean_for_dns_lem, allowed-armoredwitness}
use armored_witness_applet.Networking.{Calls, checked, start_networking}
use armored_witness_applet.Slots.{Partition}
use armored_witness_applet.Persistence.{Exec, new_slot_persistence}
use armored_witness_applet.Boot.{
  System, Started, default_configuration, answered_config, check_version, hostname_of, start,
}

hostname_of-IsLabel : (name : Option Text) → IsLabel (hostname_of name)
unfolding hostname_of
hostname_of-IsLabel none = allowed-armoredwitness
hostname_of-IsLabel (some name) = (clean_for_dns_lem name).0

checked-some : {A : Type 0} (o : Option A) {a : A} → checked o status_failed ≡ ok a → o ≡ some a
checked-some none h = cc
checked-some (some a) h = cc

check_version-accepts :
    (os : System) (u : Unit {0}) → check_version os ≡ ok u → os.accepts_version ≡ true
unfolding check_version
check_version-accepts os u h = elim (Bool-cases os.accepts_version) [
  | inl e ↦ e
  | inr e ↦ cc (h, refused e)
]
  where
    refused : os.accepts_version ≡ false → check_version os ≡ err version_refused
    refused e = rw (e, check_version) refl

module _ {S N M L R : Type 0} (os : System) (crypto : Crypto R) (calls : Calls N M L)
    (verifier_name : Text → Option Text) where
  -- What `start-ok` states of the end of the start.
  abbrev Sound : Result Partition → Exec S (Unit {0}) → S → N → Started S N → Type 0
  Sound partition initialise store n end =
      (os.accepts_version ≡ true)
      × ((s : Status) × (os.status ≡ some s) × (derive_identity_keys crypto s ≡ ok end.identity))
      × (start_networking calls end.cfg n ≡ ok end.net)
      × ((part : Partition) × (partition ≡ ok part)
          × (initialise (record { per = new_slot_persistence part; store = store })
              ≡ (ok tt, end.storage)))
      × IsLabel end.hostname

  -- The applet gets to the end of its start only where the OS accepts its version, and tells its
  -- status; its keys are then those derived for that status, its network was started under the
  -- configuration that it has, its storage is as Init leaves it with success, and the name of its host
  -- has letters, digits and hyphens only.
  pub start-ok :
      (partition : Result Partition) (initialise : Exec S (Unit {0})) (store : S) (n : N)
      (end : Started S N)
      → start os crypto calls verifier_name partition initialise store n ≡ ok end
      → (os.accepts_version ≡ true)
        × ((s : Status) × (os.status ≡ some s) × (derive_identity_keys crypto s ≡ ok end.identity))
        × (start_networking calls end.cfg n ≡ ok end.net)
        × ((part : Partition) × (partition ≡ ok part)
            × (initialise (record { per = new_slot_persistence part; store = store })
                ≡ (ok tt, end.storage)))
        × IsLabel end.hostname
  unfolding start
  start-ok partition initialise store n end h = from_bind (check_version os) _ h λ u version h₁.
      from_bind (answered_config os default_configuration (os.config default_configuration)) _ h₁
        λ cfg _ h₂. from_bind (checked os.status status_failed) _ h₂ λ s told h₃.
          from_bind (derive_identity_keys crypto s) _ h₃ λ identity derived h₄.
            from_bind (wrap cannot_start_networking (start_networking calls cfg n)) _ h₄
              λ net networked h₅. from_bind partition _ h₅ λ part opened h₆.
                let ran = initialise (record { per = new_slot_persistence part; store = store }) in
                from_bind (wrap no_persistence ran.0) _ h₆ λ v initialised h₇.
                  subst (Sound partition initialise store n) (ok-injective h₇) (
                    check_version-accepts os u version,
                    (s, checked-some os.status told, derived),
                    wrap-ok cannot_start_networking (start_networking calls cfg n) networked,
                    (part, opened, ap (λ r. (r, ran.1)) (wrap-ok no_persistence ran.0 initialised)),
                    hostname_of-IsLabel (verifier_name identity.witness_public_key),
                  )
