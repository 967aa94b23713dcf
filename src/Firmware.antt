-- ===== src/Firmware.antt =====
-- trusted_applet/update.go: the updater of the firmware, the verification of what it fetches, and
-- requests over HTTP.
pub mod Configuring
pub mod Verifying
pub mod Fetching
use armored_witness_applet.Prelude.{
  ℕ, zero, suc, List, [], ◌∷◌, ◌++◌, Option, none, some, ◌==◌, if◌then◌else◌, Text, Bool,
}
use armored_witness_applet.Result.{
  Error, Result, ok, err, panic, out_of_fuel, ◌>>=◌, read_failed, log_url_invalid,
  invalid_log_verifier, invalid_applet_verifier, invalid_os_verifier_1, invalid_os_verifier_2,
  binaries_url_invalid, new_fetcher_failed, new_updater_failed, open_manifest_failed,
  unmarshal_manifest_failed, not_updatable, url_invalid, request_failed, not_exist,
  unexpected_status,
}
use armored_witness_applet.Updater.{Bundle}

-- The parameters that are compiled in. `updater` writes to the two URLs.
pub record Parameters : Type 0 where
  pub binaries_url : Text
  pub log_url : Text
  pub log_origin : Text
  pub log_verifier : Text
  pub applet_verifier : Text
  pub os_verifier_1 : Text
  pub os_verifier_2 : Text

-- `firmware.BundleVerifier`, of a verifier `V` for each signature that it wants
pub record BundleVerifier (V : Type 0) : Type 0 where
  pub log_origin : Text
  pub log_verifier : V
  pub manifest_verifiers : List V

pub record FwVerifier (V : Type 0) : Type 0 where
  pub log_origin : Text
  pub log_verifier : V
  pub applet_bundle_verifier : BundleVerifier V
  pub os_bundle_verifier : BundleVerifier V

-- `update.FetcherOpts`; the fetchers are those of the two base URLs, with their timeouts in seconds.
pub record FetcherOpts (U V : Type 0) : Type 0 where
  pub log_base_url : U
  pub log_timeout : ℕ
  pub log_origin : Text
  pub log_verifier : V
  pub binaries_base_url : U
  pub binaries_timeout : ℕ
  pub applet_verifier : V
  pub os_verifier_1 : V
  pub os_verifier_2 : V

pub data Component : Type 0 where
  applet os : Component
  other : Text → Component

-- What the code calls: package url, package note, and the firmware packages of the
-- armored-witness-common repository. `none` is an error.
pub record Packages (U V F D : Type 0) : Type 0 where
  pub parse_url : Text → Option U
  pub new_verifier : Text → Option V
  pub new_fetcher : FetcherOpts U V → Option F
  pub new_updater : F → FwVerifier V → Option D
  pub open_note : List ℕ → List V → Option Text
  pub unmarshal_release : Text → Option Component
  pub verify_bundle : BundleVerifier V → Bundle → Option Error

-- `u[len(u)-1]`
unfoldable pub last_char : Text → Option ℕ
last_char [] = none
last_char (c ∷ []) = some c
last_char (c ∷ d ∷ u) = last_char (d ∷ u)

-- `if u[len(u)-1] != '/' { u += "/" }`, which panics on an empty text
unfoldable pub with_slash : Text → Result Text
with_slash u = elim (last_char u) [
  | none ↦ panic
  | some c ↦ ok (if c == b'/' then u else u ++ (b'/' ∷ []))
]

-- The rest of a function that has changed a variable, where its next call returned no error.
abbrev pub after : {A B S : Type 0} → Result A → S → (A → Result B × S) → Result B × S
after (ok a) s f = f a
after (err e) s f = (err e, s)
after panic s f = (panic, s)
after out_of_fuel s f = (out_of_fuel, s)

module _ {V : Type 0} where
  unfoldable pub new_fw_verifier : Text → V → V → List V → FwVerifier V
  new_fw_verifier log_origin log_verifier applet_verifier os_verifiers = record {
    log_origin = log_origin;
    log_verifier = log_verifier;
    applet_bundle_verifier = record {
      log_origin = log_origin;
      log_verifier = log_verifier;
      manifest_verifiers = applet_verifier ∷ [];
    };
    os_bundle_verifier = record {
      log_origin = log_origin;
      log_verifier = log_verifier;
      manifest_verifiers = os_verifiers;
    };
  }

module _ {U V F D : Type 0} (lib : Packages U V F D) where
  abbrev pub needed : {A : Type 0} → Option A → Error → Result A
  needed none e = err e
  needed (some a) e = ok a

  -- The URL of the log and the verifiers, from the parameters.
  unfoldable pub log_and_verifiers : Parameters → Result (U × V × V × V × V)
  log_and_verifiers p = needed (lib.parse_url p.log_url) log_url_invalid >>= λ log_base_url.
      needed (lib.new_verifier p.log_verifier) invalid_log_verifier >>= λ log_v.
      needed (lib.new_verifier p.applet_verifier) invalid_applet_verifier >>= λ applet_v.
      needed (lib.new_verifier p.os_verifier_1) invalid_os_verifier_1 >>= λ os_v1.
      needed (lib.new_verifier p.os_verifier_2) invalid_os_verifier_2 >>= λ os_v2.
      ok (log_base_url, log_v, applet_v, os_v1, os_v2)

  -- The end of `updater`, with the URL of the binaries in place.
  unfoldable pub make_updater : Parameters → U × V × V × V × V → Result (F × D)
  make_updater p (log_base_url, log_v, applet_v, os_v1, os_v2) =
      needed (lib.parse_url p.binaries_url) binaries_url_invalid >>= λ bin_base_url.
      needed
        (lib.new_fetcher (record {
          log_base_url = log_base_url;
          log_timeout = 30;
          log_origin = p.log_origin;
          log_verifier = log_v;
          binaries_base_url = bin_base_url;
          binaries_timeout = 300;
          applet_verifier = applet_v;
          os_verifier_1 = os_v1;
          os_verifier_2 = os_v2;
        }))
        new_fetcher_failed
      >>= λ update_fetcher.
          needed
            (lib.new_updater update_fetcher
              (new_fw_verifier p.log_origin log_v applet_v (os_v1 ∷ os_v2 ∷ [])))
            new_updater_failed
          >>= λ new_one. ok (update_fetcher, new_one)

  -- `updater` once it has the URL of the log and the verifiers
  unfoldable pub rest : Parameters → U × V × V × V × V → Result (F × D) × Parameters
  rest p found = after (with_slash p.binaries_url) p λ binaries_url.
      let p' : Parameters = record p { binaries_url = binaries_url } in (make_updater p' found, p')

  unfoldable pub updater : Parameters → Result (F × D) × Parameters
  updater p = after (with_slash p.log_url) p λ log_url.
      let p' : Parameters = record p { log_url = log_url } in
      after (log_and_verifiers p') p' (rest p')

  -- `fwVerifier.Verify`: `none` is success.
  unfoldable pub verify : FwVerifier V → Bundle → Option Error
  verify fw b =
      elim (lib.open_note b.manifest (
          fw.applet_bundle_verifier.manifest_verifiers ++ fw.os_bundle_verifier.manifest_verifiers))
        as (λ _. Option Error) [
          | none ↦ some open_manifest_failed
          | some text ↦ elim (lib.unmarshal_release text) as (λ _. Option Error) [
            | none ↦ some unmarshal_manifest_failed
            | some applet ↦ lib.verify_bundle fw.applet_bundle_verifier b
            | some os ↦ lib.verify_bundle fw.os_bundle_verifier b
            | some (other name) ↦ some not_updatable
          ]
        ]

-- The answer to a request: its status, the bytes of its body that arrive, and whether the body
-- ends there in an error.
pub record Response : Type 0 where
  pub status_code : ℕ
  pub body : List ℕ
  pub cut : Bool

-- `io.ReadAll`: what was read, also where there is an error.
unfoldable pub read_all : Response → List ℕ × Option Error
read_all resp = (resp.body, if resp.cut then some read_failed else none)

-- `new_request` and `send` are those of net/http, the latter with its timeout in seconds; `resolve`
-- is Parse of a URL.
module _ {U Q : Type 0} (new_request : U → Option Q) (send : ℕ → Q → Option Response) where
  unfoldable pub read_http : U → ℕ → Result (List ℕ)
  read_http u timeout = elim (new_request u) as (λ _. Result (List ℕ)) [
    | none ↦ err url_invalid
    | some req ↦ elim (send timeout req) as (λ _. Result (List ℕ)) [
      | none ↦ err request_failed
      | some resp ↦
          if resp.status_code == 404
          then err not_exist
          else if resp.status_code == 200
          then ok (read_all resp).0
          else err unexpected_status
    ]
  ]

  unfoldable pub fetch : (U → Text → Option U) → U → ℕ → Text → Result (List ℕ)
  fetch resolve root timeout p = elim (resolve root p) [
    | none ↦ err url_invalid
    | some u ↦ read_http u timeout
  ]
