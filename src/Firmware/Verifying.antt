-- ===== src/Firmware/Verifying.antt =====
-- trusted_applet/update.go: fwVerifier.Verify.
use armored_witness_applet.Prelude.{◌≡◌, [], ◌∷◌, none, some, ◌↔◌, ◌⊎◌, Text, arith}
use armored_witness_applet.Updater.{Bundle}
use armored_witness_applet.Firmware.{Packages, applet, os, new_fw_verifier, verify}

module _ {U V F D : Type 0} (lib : Packages U V F D) where
  -- What a bundle must be: its manifest is a note that opens under the keys of the applet and of
  -- the OS, and it holds, with the log, under the keys of the component that it names.
  abbrev pub Genuine : Text → V → V → V → V → Bundle → Type 0
  Genuine origin log_v applet_v os_v1 os_v2 b =
      (text : Text) × (lib.open_note b.manifest (applet_v ∷ os_v1 ∷ os_v2 ∷ []) ≡ some text)
      × ((lib.unmarshal_release text ≡ some applet)
            × (lib.verify_bundle
                  (record {
                    log_origin = origin;
                    log_verifier = log_v;
                    manifest_verifiers = applet_v ∷ [];
                  })
                  b
                ≡ none)
          ⊎ (lib.unmarshal_release text ≡ some os)
            × (lib.verify_bundle
                  (record {
                    log_origin = origin;
                    log_verifier = log_v;
                    manifest_verifiers = os_v1 ∷ os_v2 ∷ [];
                  })
                  b
                ≡ none))

  -- The verifier that `updater` makes accepts a bundle exactly where its manifest opens under the
  -- three keys, names the applet or the OS, and the bundle is verified under the log's key with
  -- the keys of that component: the applet's for an applet, both of the OS's for an OS.
  pub verify_lem :
      (origin : Text) (log_v applet_v os_v1 os_v2 : V) (b : Bundle)
      → (verify lib (new_fw_verifier origin log_v applet_v (os_v1 ∷ os_v2 ∷ [])) b ≡ none)
        ↔ Genuine origin log_v applet_v os_v1 os_v2 b
  unfolding verify new_fw_verifier
  verify_lem origin log_v applet_v os_v1 os_v2 b = grind arith
