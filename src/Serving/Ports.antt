-- ===== src/Serving/Ports.antt =====
-- trusted_applet/main.go: the listeners of runWithNetworking, and when the witness is run.
use armored_witness_applet.Prelude.{
  ◌≡◌, List, [], ◌∷◌, Bool, true, false, if◌then◌else◌, arith, length, ltb, ◌&&◌, not,
}
use armored_witness_applet.Serving.{
  Conditions, Action, open_admin, open_main, run_witness, close_main, close_admin, End, returns_nil,
  returns, exits, waits, select_first, deferred, run_main, listen_main, listen_admin, after_select,
  run_with_networking,
}

-- The ports that are open: 8081 is the admin port, 80 the main one.
pub record Open : Type 0 where
  pub admin : Bool
  pub main : Bool

unfoldable pub act : Action → Open → Open
act open_admin o = record o { admin = true }
act close_admin o = record o { admin = false }
act open_main o = record o { main = true }
act close_main o = record o { main = false }
act a o = o

unfoldable pub open_after : List Action → Open → Open
open_after [] o = o
open_after (a ∷ log) o = open_after log (act a o)

abbrev pub shut : Open
shut = record { admin = false; main = false }

-- Whether both ports are open wherever the witness is run.
unfoldable pub well_run : List Action → Open → Bool
well_run [] o = true
well_run (run_witness ∷ log) o = if o.admin && o.main then well_run log o else false
well_run (a ∷ log) o = well_run log (act a o)

unfoldable pub runs : List Action → Bool
runs [] = false
runs (run_witness ∷ log) = true
runs (a ∷ log) = runs log

-- the ports that are open at the end: none, where the process has ended
unfoldable pub ports_left : List Action × End → Open
ports_left (log, exits) = shut
ports_left (log, waits) = open_after log shut
ports_left (log, returns_nil) = open_after log shut
ports_left (log, returns e) = open_after log shut

pub ports_shut :
    (c : Conditions)
    → (ports_left (run_with_networking c) ≡ shut) × (well_run (run_with_networking c).0 shut ≡ true)
unfolding run_with_networking after_select listen_admin listen_main run_main deferred open_after act
    well_run ports_left
ports_shut c = grind arith

witness_runs :
    (c : Conditions)
    → runs (run_with_networking c).0 ≡ (
        c.address
        && (ltb 0 (length c.ntp_server)
            && (c.time_first
                && (not c.cold_start && (c.admin_listener && (c.signer && c.main_listener))))))
unfolding run_with_networking select_first after_select listen_admin listen_main run_main deferred
    runs
witness_runs c = grind arith

-- However runWithNetworking ends, no port is left open; wherever the witness is run, both are
-- open; and it is run exactly where there is an address, an NTP server is configured, the time is set
-- by it before the network goes, that was no jump from before 2024, and the signer and both listeners
-- are had.
pub run_with_networking_lem :
    (c : Conditions)
    → (ports_left (run_with_networking c) ≡ shut)
      × (well_run (run_with_networking c).0 shut ≡ true)
      × (runs (run_with_networking c).0 ≡ (
          c.address
          && (ltb 0 (length c.ntp_server)
              && (c.time_first
                  && (not c.cold_start && (c.admin_listener && (c.signer && c.main_listener)))))))
run_with_networking_lem c =
    let (closed, open_then) = ports_shut c in (closed, open_then, witness_runs c)
