-- ===== src/Serving.antt =====
-- trusted_applet/main.go: runWithNetworking, and the handlers that it serves.
pub mod Ports
pub mod Rounds
use armored_witness_applet.Prelude.{
  ℕ, List, [], ◌∷◌, ◌++◌, Option, none, some, Bool, true, false, if◌then◌else◌, Text, codes, length,
  ltb, ◌&&◌, ◌⊎◌, inl, inr,
}
use armored_witness_applet.Result.{
  Error, no_address, admin_listener_failed, main_listener_failed, witness_failed, context_done,
}

-- What runWithNetworking meets, in its order: whether the NIC has an address; whether the clock is
-- before 2024; whether the first time is set before the context is done; whether the context is done
-- at all; whether the listeners and the signer are had; and whether the witness fails.
pub record Conditions : Type 0 where
  pub address : Bool
  pub cold_start : Bool
  pub ntp_server : Text
  pub time_first : Bool
  pub context_ends : Bool
  pub admin_listener : Bool
  pub signer : Bool
  pub main_listener : Bool
  pub witness_fails : Bool

-- What it does, in order.
pub data Action : Type 0 where
  set_witness_status start_ntp start_update_checker : Action
  open_admin serve_admin open_main count_started run_witness close_main close_admin : Action

-- How it ends: with nil, with an error, with the end of the process, or never.
pub data End : Type 0 where
  returns_nil : End
  returns : Error → End
  exits waits : End

-- What the select finds: the channel of runNTP, which is nil where there is no server, or the
-- context.
pub data Selected : Type 0 where
  time_set done neither : Selected

abbrev pub or_done : Conditions → Selected
or_done c = if c.context_ends then done else neither

unfoldable pub select_first : Conditions → Selected
select_first c = if ltb 0 (length c.ntp_server) && c.time_first then time_set else or_done c

-- `defer`: the action comes once the rest has returned, and not where the process ends.
unfoldable pub deferred : Action → List Action × End → List Action × End
deferred a (log, exits) = (log, exits)
deferred a (log, waits) = (log, waits)
deferred a (log, returns_nil) = (log ++ (a ∷ []), returns_nil)
deferred a (log, returns e) = (log ++ (a ∷ []), returns e)

abbrev pub before : List Action → List Action × End → List Action × End
before actions (log, end) = (actions ++ log, end)

-- from "Starting witness..." on
unfoldable pub run_main : Conditions → List Action × End
run_main c = (
  count_started ∷ run_witness ∷ [],
  if c.witness_fails
      then returns witness_failed
      else if c.context_ends
      then returns context_done
      else returns_nil,
)

-- from the signer on
unfoldable pub listen_main : Conditions → List Action × End
listen_main c =
    if c.signer
    then if c.main_listener
      then before (open_main ∷ []) (deferred close_main (run_main c))
      else ([], returns main_listener_failed)
    else ([], exits)

unfoldable pub listen_admin : Conditions → List Action × End
listen_admin c =
    if c.admin_listener
    then before (open_admin ∷ []) (deferred close_admin (before (serve_admin ∷ []) (listen_main c)))
    else ([], returns admin_listener_failed)

unfoldable pub after_select : Conditions → Selected → List Action × End
after_select c time_set =
    if c.cold_start then ([], returns_nil) else before (start_update_checker ∷ []) (listen_admin c)
after_select c done = ([], returns context_done)
after_select c neither = ([], waits)

unfoldable pub run_with_networking : Conditions → List Action × End
run_with_networking c =
    if c.address
    then before (set_witness_status ∷ start_ntp ∷ []) (after_select c (select_first c))
    else ([], returns no_address)

-- a round of the loop of main, and those behind it
abbrev pub next_round : List Action × End → List Action × Option End → List Action × Option End
next_round (log, exits) rest = (log, some exits)
next_round (log, waits) rest = (log, some waits)
next_round (log, returns_nil) (more, end) = (log ++ more, end)
next_round (log, returns e) (more, end) = (log ++ more, end)

-- The loop of main where there is no DHCP, over what its rounds meet. It ends, or stops in a wait,
-- only in a round that does; `none` stands for a loop that goes on.
unfoldable pub run_rounds : List Conditions → List Action × Option End
run_rounds [] = ([], none)
run_rounds (c ∷ cs) = next_round (run_with_networking c) (run_rounds cs)

-- The answer to a request.
pub record Answer : Type 0 where
  pub status : ℕ
  pub content_type : Option Text
  pub content : Text

-- `logHandler.ServeHTTP`, for what the RPC returns
unfoldable pub serve_log : Option Text → Answer
serve_log none = record { status = 500; content_type = none; content = [] }
serve_log (some l) = record { status = 200; content_type = some (codes "text/plain"); content = l }

-- the handler of /status: what the RPC returns is the text of its error, or that of the status
unfoldable pub serve_status : Text ⊎ Text → Answer
serve_status (inl e) = record {
  status = 500;
  content_type = some (codes "text/plain");
  content = e;
}
serve_status (inr t) = record {
  status = 200;
  content_type = some (codes "text/plain");
  content = t;
}

-- the handler of /updatecheck, once its send to the channel has returned
unfoldable pub serve_update_check : Answer
serve_update_check = record {
  status = 200;
  content_type = some (codes "text/plain");
  content = codes "ok, check /consolelog!";
}
