-- ===== src/Boot/Reports.antt =====
-- trusted_applet/main.go: the calls of the operating system that main makes at the start, in order.
use mathlib.Core.Path.{subst}
use armored_witness_applet.Prelude.{
  ◌≡◌, refl, sym, ap, ◌∙◌, ◌↔◌, List, [], ◌∷◌, ◌++◌, Option, none, some, Text, codes, Bool, true,
  false, if◌then◌else◌,
}
use armored_witness_applet.Result.{
  Result, ok, err, panic, out_of_fuel, ◌>>=◌, wrap, status_failed, cannot_start_networking,
  no_persistence, version_refused,
}
use armored_witness_applet.Keys.{Status, Crypto, Identity, derive_identity_keys}
use armored_witness_applet.Networking.{Configuration, Calls, checked, start_networking}
use armored_witness_applet.Slots.{Partition}
use armored_witness_applet.Persistence.{Exec, new_slot_persistence}
use armored_witness_applet.Boot.{
  System, Started, default_configuration, answered_config, check_version, hostname_of, start,
}

-- What main tells and asks the operating system, and the start of eventHandler. Their names are those
-- of the calls.
pub data Call : Type 0 where
  version status address event_handler : Call
  config : Configuration → Call
  led : Text → Call
  set_witness_status : Identity → Call

-- A part of main: the calls that it makes, and its outcome.
abbrev pub Logged : Type 0 → Type 0
Logged A = List Call × Result A

abbrev pub calling : Call → Logged (Unit {0})
calling c = (c ∷ [], ok tt)

abbrev pub silent : {A : Type 0} → Result A → Logged A
silent r = ([], r)

module _ {A B : Type 0} where
  -- the part behind a part that was successful
  abbrev pub followed : Logged A → (A → Logged B) → Logged B
  followed (log, ok a) f = let (more, r) = f a in (log ++ more, r)
  followed (log, err e) f = (log, err e)
  followed (log, panic) f = (log, panic)
  followed (log, out_of_fuel) f = (log, out_of_fuel)

  infixl 5 ◌>>>◌
  abbrev pub ◌>>>◌ : Logged A → (A → Logged B) → Logged B
  ◌>>>◌ m f = followed m f

  result-followed :
      (m : Logged A) (f : A → Logged B) (g : A → Result B)
      → ((a : A) → (f a).1 ≡ g a)
      → (m >>> f).1 ≡ (m.1 >>= g)
  result-followed (log, ok a) f g h = h a
  result-followed (log, err e) f g h = refl
  result-followed (log, panic) f g h = refl
  result-followed (log, out_of_fuel) f g h = refl

-- The calls behind the report of the identity, for what comes of the network.
abbrev pub network_calls : {N : Type 0} → Result N → List Call
network_calls (ok net) = address ∷ event_handler ∷ []
network_calls (err e) = []
network_calls panic = []
network_calls out_of_fuel = []

check_version-ok : (os : System) → os.accepts_version ≡ true → check_version os ≡ ok tt
unfolding check_version
check_version-ok os accepted = ap (λ b. if b then ok tt else err version_refused) accepted

check_version-accepts :
    (os : System) (u : Unit {0}) → check_version os ≡ ok u → os.accepts_version ≡ true
unfolding check_version
check_version-accepts os u h = go os.accepts_version h
  where
    go : (b : Bool) → (if b then ok tt else err version_refused) ≡ ok u → b ≡ true
    go true h = refl
    go false h = absurd (cc h)

checked-some : (o : Option Status) (s : Status) → checked o status_failed ≡ ok s → o ≡ some s
checked-some (some t) s h = cc
checked-some none s h = absurd (cc h)

-- The identity that the calls report first.
unfoldable pub reported : List Call → Option Identity
reported [] = none
reported (version ∷ log) = reported log
reported (status ∷ log) = reported log
reported (address ∷ log) = reported log
reported (event_handler ∷ log) = reported log
reported (config c ∷ log) = reported log
reported (led color ∷ log) = reported log
reported (set_witness_status i ∷ log) = some i

-- Whether eventHandler is started.
unfoldable pub handled : List Call → Bool
handled [] = false
handled (version ∷ log) = handled log
handled (status ∷ log) = handled log
handled (address ∷ log) = handled log
handled (event_handler ∷ log) = true
handled (config c ∷ log) = handled log
handled (led color ∷ log) = handled log
handled (set_witness_status i ∷ log) = handled log

module _ {A B X : Type 0} where
  -- Where the calls behind a part answer a question, that part was successful.
  silent-ok :
      (r : Result A) (f : A → Logged B) (ask : List Call → X) (x : X)
      → ¬ (ask [] ≡ x)
      → ask (silent r >>> f).0 ≡ x
      → (a : A) × (r ≡ ok a) × (ask (f a).0 ≡ x)
  silent-ok (ok a) f ask x open_yet h = (a, refl, h)
  silent-ok (err e) f ask x open_yet h = absurd (open_yet h)
  silent-ok panic f ask x open_yet h = absurd (open_yet h)
  silent-ok out_of_fuel f ask x open_yet h = absurd (open_yet h)

-- What main reports from, and how far it has come then.
pub record Identified {R : Type 0} (os : System) (crypto : Crypto R) (cfg : Configuration)
    (s : Status) (identity : Identity) : Type 0 where
  pub accepted : os.accepts_version ≡ true
  pub configured :
      answered_config os default_configuration (os.config default_configuration) ≡ ok cfg
  pub had : os.status ≡ some s
  pub derived : derive_identity_keys crypto s ≡ ok identity

-- A question to the calls of main that no call before the report of the identity answers.
abbrev Later : {X : Type 0} → (List Call → X) → X → Type 0
Later ask x =
    (¬ (ask [] ≡ x))
    × ((log : List Call)
        → (ask (version ∷ log) ≡ ask log)
          × (ask (config default_configuration ∷ log) ≡ ask log)
          × (ask (status ∷ log) ≡ ask log)
          × (ask (led (codes "blue") ∷ log) ≡ ask log))

network_calls-ok :
    {N : Type 0} → (r : Result N) → handled (network_calls r) ≡ true → (net : N) × (r ≡ ok net)
unfolding handled
network_calls-ok (ok net) h = (net, refl)
network_calls-ok (err e) h = absurd (cc h)
network_calls-ok panic h = absurd (cc h)
network_calls-ok out_of_fuel h = absurd (cc h)

module _ {S N M L R : Type 0} (os : System) (crypto : Crypto R) (calls : Calls N M L)
    (verifier_name : Text → Option Text) where
  -- main from `openStorage` on
  unfoldable pub open_and_name :
      Result Partition
      → Exec S (Unit {0})
      → S
      → Configuration
      → Status
      → Identity
      → N
      → Result (Started S N)
  open_and_name partition initialise store cfg s identity net = partition >>= λ part.
      let ran = initialise (record { per = new_slot_persistence part; store = store }) in
      wrap no_persistence ran.0 >>= λ _. ok (record {
        cfg = cfg;
        identity = identity;
        net = net;
        storage = ran.1;
        client_id = codes "AW-" ++ s.serial;
        hostname = hostname_of (verifier_name identity.witness_public_key);
      })

  -- main from the start of the network on
  unfoldable pub main_network :
      Result Partition
      → Exec S (Unit {0})
      → S
      → N
      → Configuration
      → Status
      → Identity
      → Logged (Started S N)
  main_network partition initialise store n cfg s identity =
      silent (wrap cannot_start_networking (start_networking calls cfg n)) >>> λ net.
      calling address >>> λ _. calling event_handler >>> λ _.
      silent (open_and_name partition initialise store cfg s identity net)

  -- main with its calls. Those that derive the keys and start the network make themselves are left
  -- out.
  unfoldable pub main_calls : Result Partition → Exec S (Unit {0}) → S → N → Logged (Started S N)
  main_calls partition initialise store n = calling version >>> λ _.
      silent (check_version os) >>> λ _. calling (config default_configuration) >>> λ _.
      silent (answered_config os default_configuration (os.config default_configuration)) >>> λ cfg.
      calling status >>> λ _. silent (checked os.status status_failed) >>> λ s.
      calling (led (codes "blue")) >>> λ _. silent (derive_identity_keys crypto s) >>> λ identity.
      calling (set_witness_status identity) >>> λ _.
      main_network partition initialise store n cfg s identity

  main_network-log :
      (partition : Result Partition) (initialise : Exec S (Unit {0})) (store : S) (n : N)
      (cfg : Configuration) (s : Status) (identity : Identity)
      → (main_network partition initialise store n cfg s identity).0
        ≡ network_calls (start_networking calls cfg n)
  unfolding main_network
  main_network-log partition initialise store n cfg s identity = go (start_networking calls cfg n)
    where
      go :
          (r : Result N)
          → (silent (wrap cannot_start_networking r) >>> λ net. calling address >>> λ _.
              calling event_handler >>> λ _.
              silent (open_and_name partition initialise store cfg s identity net)).0
            ≡ network_calls r
      go (ok net) = refl
      go (err e) = refl
      go panic = refl
      go out_of_fuel = refl

  -- main, without its calls, is the start of the applet.
  pub main_calls-start :
      (partition : Result Partition) (initialise : Exec S (Unit {0})) (store : S) (n : N)
      → (main_calls partition initialise store n).1
        ≡ start os crypto calls verifier_name partition initialise store n
  unfolding main_calls main_network open_and_name start
  main_calls-start partition initialise store n =
      result-followed (silent (check_version os)) _ _ (λ _.
        result-followed
          (silent (answered_config os default_configuration (os.config default_configuration))) _ _
          (λ cfg. result-followed (silent (checked os.status status_failed)) _ _ (λ s.
            result-followed (silent (derive_identity_keys crypto s)) _ _ (λ identity.
              result-followed (silent (wrap cannot_start_networking (start_networking calls cfg n)))
                _ _ (λ net. refl)))))

  -- The calls of main where nothing before the network fails.
  main_calls-log :
      (partition : Result Partition) (initialise : Exec S (Unit {0})) (store : S) (n : N)
      (cfg : Configuration) (s : Status) (identity : Identity)
      → os.accepts_version ≡ true
      → answered_config os default_configuration (os.config default_configuration) ≡ ok cfg
      → os.status ≡ some s
      → derive_identity_keys crypto s ≡ ok identity
      → (main_calls partition initialise store n).0
        ≡ version
          ∷ config default_configuration
          ∷ status
          ∷ led (codes "blue")
          ∷ set_witness_status identity
          ∷ network_calls (start_networking calls cfg n)
  unfolding main_calls
  main_calls-log partition initialise store n cfg s identity accepted configured had derived =
      let passed : check_version os ≡ ok tt = check_version-ok os accepted in
      let asked : checked os.status status_failed ≡ ok s = ap (λ o. checked o status_failed) had in
      rw (passed, configured, asked, derived, main_calls)
        (ap
          (λ l.
            version
            ∷ config default_configuration
            ∷ status
            ∷ led (codes "blue")
            ∷ set_witness_status identity
            ∷ l)
          (main_network-log partition initialise store n cfg s identity))

  -- Where the answer is in the calls of main, all parts before the report were successful.
  main_calls-Identified :
      {X : Type 0}
      → (ask : List Call → X) (x : X) → Later ask x
      → (partition : Result Partition) (initialise : Exec S (Unit {0})) (store : S) (n : N)
      → ask (main_calls partition initialise store n).0 ≡ x
      → (cfg : Configuration) × (s : Status) × (identity : Identity) × Identified os crypto cfg s
          identity
        × (ask (
              set_witness_status identity
              ∷ (main_network partition initialise store n cfg s identity).0)
            ≡ x)
  unfolding main_calls
  main_calls-Identified ask x (open_yet, same) partition initialise store n h =
      let (u, accepted, h₁) = silent-ok (check_version os) _ ask x open_yet (sym (same _).0 ∙ h) in
      let (cfg, configured, h₂) =
        silent-ok (answered_config os default_configuration (os.config default_configuration)) _ ask
          x open_yet (sym (same _).1 ∙ h₁) in
      let (s, had, h₃) =
        silent-ok (checked os.status status_failed) _ ask x open_yet (sym (same _).2 ∙ h₂) in
      let (identity, derived, h₄) =
        silent-ok (derive_identity_keys crypto s) _ ask x open_yet (sym (same _).3 ∙ h₃) in
      (
        cfg,
        s,
        identity,
        record {
          accepted = check_version-accepts os u accepted;
          configured = configured;
          had = checked-some os.status s had;
          derived = derived;
        },
        h₄,
      )

  -- main reports an identity to the operating system exactly where the version is accepted, the
  -- configuration and the status are had, and this identity is derived of the status, whatever comes of
  -- the network and the storage; and it starts eventHandler exactly where the network is up, too.
  pub main_calls_lem :
      (partition : Result Partition) (initialise : Exec S (Unit {0})) (store : S) (n : N)
      (identity : Identity)
      → let log = (main_calls partition initialise store n).0 in
        ((reported log ≡ some identity)
          ↔ ((cfg : Configuration) × (s : Status) × Identified os crypto cfg s identity))
        × ((handled log ≡ true) ↔ (
            (cfg : Configuration) × (s : Status) × (i : Identity) × (net : N) × Identified os crypto
              cfg s i
            × (start_networking calls cfg n ≡ ok net)))
  unfolding reported handled
  main_calls_lem partition initialise store n identity =
      ((reports, reports_back), (handles, handles_back))
    where
      log : List Call
      log = (main_calls partition initialise store n).0

      reports :
          reported log ≡ some identity
          → (cfg : Configuration) × (s : Status) × Identified os crypto cfg s identity
      reports h =
          let (cfg, s, i, found, e) =
            main_calls-Identified reported (some identity)
              (λ e. cc e, λ l. (refl, refl, refl, refl)) partition initialise store n h in
          let same : i ≡ identity = cc e in (cfg, s, subst (Identified os crypto cfg s) same found)

      reports_back :
          (cfg : Configuration) × (s : Status) × Identified os crypto cfg s identity
          → reported log ≡ some identity
      reports_back (cfg, s, found) = ap reported (
          main_calls-log partition initialise store n cfg s identity found.accepted found.configured
            found.had found.derived)

      handles :
          handled log ≡ true
          → (cfg : Configuration) × (s : Status) × (i : Identity) × (net : N) × Identified os crypto
              cfg s i
            × (start_networking calls cfg n ≡ ok net)
      handles h =
          let (cfg, s, i, found, e) =
            main_calls-Identified handled true (λ e. cc e, λ l. (refl, refl, refl, refl)) partition
              initialise store n h in
          let (net, up) =
            network_calls-ok (start_networking calls cfg n)
              (ap handled (sym (main_network-log partition initialise store n cfg s i)) ∙ e) in
          (cfg, s, i, net, found, up)

      handles_back :
          (cfg : Configuration) × (s : Status) × (i : Identity) × (net : N) × Identified os crypto
              cfg s i
            × (start_networking calls cfg n ≡ ok net)
          → handled log ≡ true
      handles_back (cfg, s, i, net, found, up) =
          ap handled (
            main_calls-log partition initialise store n cfg s i found.accepted found.configured
              found.had found.derived)
          ∙ ap (λ r. handled (network_calls r)) up
