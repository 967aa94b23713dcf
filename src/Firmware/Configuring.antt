-- ===== src/Firmware/Configuring.antt =====
-- trusted_applet/update.go: the configuration of the updater, which writes to its parameters.
use armored_witness_applet.Prelude.{ℕ, ◌≡◌, refl, [], ◌∷◌, ◌++◌, some, Text, arith}
use armored_witness_applet.Result.{Result, ok, err, panic, out_of_fuel}
use armored_witness_applet.Firmware.{
  Parameters, Packages, last_char, with_slash, after, updater, rest, log_and_verifiers,
}

last_char-append : (u : Text) (c : ℕ) → last_char (u ++ (c ∷ [])) ≡ some c
unfolding last_char
last_char-append [] c = refl
last_char-append (d ∷ []) c = refl
last_char-append (d ∷ e ∷ u) c = last_char-append (e ∷ u) c

-- A text that has got its slash keeps it, and gets no other.
with_slash-again : (u v : Text) → with_slash u ≡ ok v → with_slash v ≡ ok v
unfolding with_slash
with_slash-again u v h = grind (arith, last_char-append u b'/')

module _ {U V F D : Type 0} (lib : Packages U V F D) where
  -- An outcome of `updater` that a call on its parameters repeats.
  abbrev Settled : Result (F × D) × Parameters → Type 0
  Settled (r, p) = updater lib p ≡ (r, p)

  abbrev slashed : Parameters → Text → Text → Parameters
  slashed p u b = record p { log_url = u; binaries_url = b }

  rest-Settled :
      (p : Parameters) (found : U × V × V × V × V)
      → with_slash p.log_url ≡ ok p.log_url
      → log_and_verifiers lib p ≡ ok found
      → (r : Result Text) → with_slash p.binaries_url ≡ r
      → Settled (rest lib p found)
  unfolding updater rest log_and_verifiers
  rest-Settled p found same e (ok b) h =
      let again : with_slash b ≡ ok b = with_slash-again p.binaries_url b h in
      rw (h, same, e, again) refl
  rest-Settled p found same e (err x) h = rw (h, same, e, h) refl
  rest-Settled p found same e panic h = rw (h, same, e, h) refl
  rest-Settled p found same e out_of_fuel h = rw (h, same, e, h) refl

  log-Settled :
      (p : Parameters)
      → with_slash p.log_url ≡ ok p.log_url
      → (r : Result (U × V × V × V × V)) → log_and_verifiers lib p ≡ r
      → Settled (after r p (rest lib p))
  unfolding updater
  log-Settled p same (ok found) e = rest-Settled p found same e (with_slash p.binaries_url) refl
  log-Settled p same (err x) e = rw (same, e) refl
  log-Settled p same panic e = rw (same, e) refl
  log-Settled p same out_of_fuel e = rw (same, e) refl

  slash-Settled :
      (p : Parameters) (r : Result Text)
      → with_slash p.log_url ≡ r
      → Settled (
          after r p λ u.
            let p' : Parameters = record p { log_url = u } in
            after (log_and_verifiers lib p') p' (rest lib p'))
  unfolding updater
  slash-Settled p (ok u) h =
      let p' : Parameters = record p { log_url = u } in
      log-Settled p' (with_slash-again p.log_url u h) (log_and_verifiers lib p') refl
  slash-Settled p (err x) h = rw h refl
  slash-Settled p panic h = rw h refl
  slash-Settled p out_of_fuel h = rw h refl

  -- The call of `updater` after another does what the first did, failed or not: it returns the
  -- same, and the parameters that the first has written to stay as they are.
  pub updater-again : (p : Parameters) → updater lib (updater lib p).1 ≡ updater lib p
  unfolding updater
  updater-again p = slash-Settled p (with_slash p.log_url) refl
