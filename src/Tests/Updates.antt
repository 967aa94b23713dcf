-- ===== src/Tests/Updates.antt =====
-- Tests of the updater, of the loop that runs it, and of what is served.
use armored_witness_applet.Serving.Rounds.{orderly, ports_after, run_rounds_lem}
use armored_witness_applet.Checker.Draining.{Accounted, triggers, Serves, triggers_served}
use armored_witness_applet.Prelude.{
  ℕ, ◌≡◌, refl, [], ◌∷◌, none, some, true, false, Text, codes, ◌↔◌, ◌+◌, arith, List,
}
use armored_witness_applet.Result.{ok, bundle_rejected}
use armored_witness_applet.Updater.{Bundle}
use armored_witness_applet.Firmware.{
  Parameters, Packages, applet, updater, verify, new_fw_verifier, Response, fetch, with_slash,
  last_char, log_and_verifiers, rest, make_updater,
}
use armored_witness_applet.Firmware.Verifying.{verify_lem, Genuine}
use armored_witness_applet.Firmware.Fetching.{fetch_lem}
use armored_witness_applet.Checker.{
  Checker, Updates, State, sending, tick, request, leave, cancel, Steps, here, then, initial,
  on_trigger, available,
}
use armored_witness_applet.Checker.Counting.{on_trigger-counters, tried, scanned}
use armored_witness_applet.Checker.Running.{Good, Steps-Good, Stuck, Steps-Stuck}
use armored_witness_applet.Serving.{Conditions, run_with_networking, run_rounds}
use armored_witness_applet.Serving.Ports.{run_with_networking_lem, ports_left, shut, well_run, runs}

-- Packages that take each text, and accept each bundle of an applet.
abbrev packages : Packages Text Text ℕ ℕ
packages = record {
  parse_url = λ t. some t;
  new_verifier = λ t. some t;
  new_fetcher = λ o. some 1;
  new_updater = λ f v. some 2;
  open_note = λ n vs. some n;
  unmarshal_release = λ t. some applet;
  verify_bundle = λ v b. none;
}

abbrev parameters : Parameters
parameters = record {
  binaries_url = codes "https://b/";
  log_url = codes "https://log";
  log_origin = codes "o";
  log_verifier = codes "l";
  applet_verifier = codes "a";
  os_verifier_1 = codes "s";
  os_verifier_2 = codes "t";
}

-- The URL of the log gets its slash.
updater_run :
    updater packages parameters ≡ (ok (1, 2), record parameters { log_url = codes "https://log/" })
unfolding updater with_slash last_char log_and_verifiers rest make_updater
updater_run = refl

abbrev bundle : Bundle
bundle = record {
  checkpoint = [];
  index = 0;
  inclusion_proof = [];
  manifest = 5 ∷ [];
  firmware = [];
}

verify_lem_example :
    (verify packages
        (new_fw_verifier (codes "o") (codes "l") (codes "a") (codes "s" ∷ codes "t" ∷ []))
        bundle
      ≡ none)
    ↔ Genuine packages (codes "o") (codes "l") (codes "a") (codes "s") (codes "t") bundle
verify_lem_example =
    verify_lem packages (codes "o") (codes "l") (codes "a") (codes "s") (codes "t") bundle

-- A server that cuts its answer
abbrev cut_answer : Response
cut_answer = record { status_code = 200; body = 1 ∷ []; cut = true }

fetch_lem_example :
    (fetch {U = Text} {Q = Text}
        (λ u. some u)
        (λ t q. some cut_answer)
        (λ u p. some p)
        []
        30
        (codes "x")
      ≡ ok (1 ∷ []))
    ↔ ((u : Text) × (req : Text) × (resp : Response) × (some (codes "x") ≡ some u)
        × (some u ≡ some req)
        × (some cut_answer ≡ some resp)
        × (resp.status_code ≡ 200)
        × (resp.body ≡ 1 ∷ []))
fetch_lem_example =
    fetch_lem (λ u. some u) (λ t q. some cut_answer) (λ u p. some p) [] 30 (codes "x") (1 ∷ [])

-- An updater whose Update fails
abbrev failing : Updates ℕ ℕ ℕ
failing = record {
  updater = λ w. (some (1, 2), w + 1);
  scan = λ f w. (none, w + 1);
  update = λ d w. (some bundle_rejected, w + 1);
}

abbrev fresh : Checker ℕ ℕ ℕ
fresh = record { found = none; attempts = 0; successes = 0; world = 0 }

on_trigger-counters_example :
    ((on_trigger failing fresh).attempts
      ≡ fresh.attempts + tried failing (available failing none 0))
    × ((on_trigger failing fresh).successes
        ≡ fresh.successes + scanned failing (available failing none 0))
on_trigger-counters_example = on_trigger-counters failing fresh

-- A run: a request is queued, a tick is to be sent, the context is cancelled, and the other goroutine
-- returns first.
abbrev St : Type 0
St = State (Checker ℕ ℕ ℕ)

abbrev queued_state : St
queued_state = record (initial failing 0) { queued = 1 }

queued_run : Steps failing (initial failing 0) queued_state
queued_run =
    then (initial failing 0) (initial failing 0) queued_state (here (initial failing 0))
      (request (initial failing 0) refl (omega arith))

abbrev sending_state : St
sending_state = record queued_state { ticker = sending }

abbrev cancelled_state : St
cancelled_state = record sending_state { cancelled = true }

abbrev left_state : St
left_state = record cancelled_state { returned = true }

left_run : Steps failing (initial failing 0) left_state
left_run =
    then (initial failing 0) cancelled_state left_state
      (then (initial failing 0) sending_state cancelled_state
        (then (initial failing 0) queued_state sending_state queued_run (tick queued_state refl))
        (cancel sending_state))
      (leave cancelled_state refl refl)

Steps-Good_example : Good failing left_state
Steps-Good_example = Steps-Good failing 0 left_state left_run

-- The same, before the cancellation
sending_run : Steps failing (initial failing 0) sending_state
sending_run =
    then (initial failing 0) queued_state sending_state queued_run (tick queued_state refl)

triggers_served_example :
    Accounted failing
      (initial failing 0).checker
      sending_state
      (triggers failing (initial failing 0) sending_state sending_run)
    × (sending_state.cancelled ≡ false → Serves failing sending_state 2)
triggers_served_example = triggers_served failing 0 sending_state sending_run

Steps-Stuck_example : Stuck failing (record left_state { cancelled = true })
Steps-Stuck_example =
    Steps-Stuck failing left_state left_state
      (then left_state left_state left_state (here left_state) (cancel left_state))
      (record { in_send = refl; full = refl; gone = refl; never_closed = refl })

abbrev conditions : Conditions
conditions = record {
  address = true;
  cold_start = false;
  ntp_server = codes "time";
  time_first = true;
  context_ends = true;
  admin_listener = true;
  signer = true;
  main_listener = true;
  witness_fails = true;
}

run_with_networking_lem_example :
    (ports_left (run_with_networking conditions) ≡ shut)
    × (well_run (run_with_networking conditions).0 shut ≡ true)
    × (runs (run_with_networking conditions).0 ≡ true)
run_with_networking_lem_example = run_with_networking_lem conditions

run_rounds_lem_example :
    let cs : List Conditions = record conditions { main_listener = false } ∷ conditions ∷ [] in
    (orderly (run_rounds cs).0 shut ≡ true) × (ports_after (run_rounds cs) ≡ shut)
run_rounds_lem_example =
    run_rounds_lem (record conditions { main_listener = false } ∷ conditions ∷ [])
