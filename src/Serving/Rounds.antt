-- ===== src/Serving/Rounds.antt =====
-- trusted_applet/main.go: the loop of main where there is no DHCP.
use armored_witness_applet.Prelude.{
  ◌≡◌, refl, ap, ◌∙◌, List, [], ◌∷◌, ◌++◌, Option, none, some, Bool, true, arith, not, ◌&&◌,
}
use armored_witness_applet.Serving.{
  Conditions, Action, open_admin, open_main, run_witness, close_main, close_admin, End, returns_nil,
  returns, exits, waits, deferred, run_main, listen_main, listen_admin, after_select,
  run_with_networking, next_round, run_rounds,
}
use armored_witness_applet.Serving.Ports.{Open, act, open_after, shut, ports_left, ports_shut}

-- What an action wants of the ports: to be shut before it opens one, open before it closes one, and
-- both open where the witness is run.
unfoldable pub permits : Action → Open → Bool
permits open_admin o = not o.admin
permits open_main o = not o.main
permits close_admin o = o.admin
permits close_main o = o.main
permits run_witness o = o.admin && o.main
permits a o = true

unfoldable pub orderly : List Action → Open → Bool
orderly [] o = true
orderly (a ∷ log) o = permits a o && orderly log (act a o)

-- the ports behind the rounds: none is open, where the process has ended
unfoldable pub ports_after : List Action × Option End → Open
ports_after (log, none) = open_after log shut
ports_after (log, some exits) = shut
ports_after (log, some waits) = open_after log shut
ports_after (log, some returns_nil) = open_after log shut
ports_after (log, some (returns e)) = open_after log shut

round-orderly : (c : Conditions) → orderly (run_with_networking c).0 shut ≡ true
unfolding run_with_networking after_select listen_admin listen_main run_main deferred act orderly
    permits
round-orderly c = grind arith

open_after-append :
    (xs ys : List Action) (o : Open) → open_after (xs ++ ys) o ≡ open_after ys (open_after xs o)
unfolding open_after
open_after-append [] ys o = refl
open_after-append (x ∷ xs) ys o = open_after-append xs ys (act x o)

orderly-append :
    (xs ys : List Action) (o : Open)
    → orderly xs o ≡ true
    → orderly ys (open_after xs o) ≡ true
    → orderly (xs ++ ys) o ≡ true
unfolding orderly open_after
orderly-append [] ys o h k = k
orderly-append (x ∷ xs) ys o h k =
    ground (arith, h, orderly-append xs ys (act x o) (ground (arith, h)) k)

orderly-joined :
    (log log' : List Action)
    → orderly log shut ≡ true
    → open_after log shut ≡ shut
    → orderly log' shut ≡ true
    → orderly (log ++ log') shut ≡ true
orderly-joined log log' good left more =
    orderly-append log log' shut good (ap (orderly log') left ∙ more)

open_after-joined :
    (log log' : List Action)
    → open_after log shut ≡ shut
    → open_after log' shut ≡ shut
    → open_after (log ++ log') shut ≡ shut
open_after-joined log log' left last =
    open_after-append log log' shut ∙ ap (open_after log') left ∙ last

ports_after-joined :
    (log log' : List Action) (end : Option End)
    → open_after log shut ≡ shut
    → ports_after (log', end) ≡ shut
    → ports_after (log ++ log', end) ≡ shut
unfolding ports_after
ports_after-joined log log' none left last = open_after-joined log log' left last
ports_after-joined log log' (some exits) left last = refl
ports_after-joined log log' (some waits) left last = open_after-joined log log' left last
ports_after-joined log log' (some returns_nil) left last = open_after-joined log log' left last
ports_after-joined log log' (some (returns e)) left last = open_after-joined log log' left last

-- A round that returns leaves the ports shut for the next.
step :
    (r : List Action × End) (rest : List Action × Option End)
    → orderly r.0 shut ≡ true
    → ports_left r ≡ shut
    → orderly rest.0 shut ≡ true
    → ports_after rest ≡ shut
    → (orderly (next_round r rest).0 shut ≡ true) × (ports_after (next_round r rest) ≡ shut)
unfolding ports_left ports_after
step (log, exits) rest good left more last = (good, refl)
step (log, waits) rest good left more last = (good, left)
step (log, returns_nil) (log', end) good left more last =
    (orderly-joined log log' good left more, ports_after-joined log log' end left last)
step (log, returns e) (log', end) good left more last =
    (orderly-joined log log' good left more, ports_after-joined log log' end left last)

-- Where main does without DHCP and calls runWithNetworking again and again, through all its rounds a
-- port is opened only where it is shut, and closed only where it is open; wherever the witness is
-- run, both ports are open; and behind the rounds no port is.
pub run_rounds_lem :
    (cs : List Conditions)
    → (orderly (run_rounds cs).0 shut ≡ true) × (ports_after (run_rounds cs) ≡ shut)
unfolding run_rounds orderly ports_after open_after
run_rounds_lem [] = (refl, refl)
run_rounds_lem (c ∷ cs) =
    let (more, last) = run_rounds_lem cs in
    step (run_with_networking c) (run_rounds cs) (round-orderly c) (ports_shut c).0 more last
