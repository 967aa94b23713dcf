-- ===== src/Checker.antt =====
-- trusted_applet/main.go: updateChecker, with its two goroutines and the channel between them.
pub mod Counting
pub mod Running
pub mod Draining
use armored_witness_applet.Prelude.{ℕ, zero, suc, ◌<◌, ◌≡◌, Bool, true, false, Option, none, some}
use armored_witness_applet.Result.{Error}

-- The variables of the goroutine that looks for updates, with the two counters; `world` is what the
-- calls change.
pub record Checker (F D W : Type 0) : Type 0 where
  pub found : Option (F × D)
  pub attempts : ℕ
  pub successes : ℕ
  pub world : W

-- What it calls: `updater`, and the methods Scan and Update of what that returns.
pub record Updates (F D W : Type 0) : Type 0 where
  pub updater : W → Option (F × D) × W
  pub scan : F → W → Option Error × W
  pub update : D → W → Option Error × W

-- The goroutine of the ticker: in its select, or in the send of a tick.
pub data Ticker : Type 0 where
  waiting sending stopped : Ticker

-- The channel `trigger` has room for one value, of which `queued` counts.
pub record State (C : Type 0) : Type 0 where
  pub ticker : Ticker
  pub queued : ℕ
  pub closed : Bool
  pub returned : Bool
  pub cancelled : Bool
  pub checker : C

abbrev pub capacity : ℕ
capacity = 1

module _ {F D W : Type 0} (lib : Updates F D W) where
  -- from `updateFetcher.Scan` on
  unfoldable pub scan_and_update : Checker F D W → F × D → Checker F D W
  scan_and_update c (fetcher, client) =
      let c' : Checker F D W = record c {
        found = some (fetcher, client);
        attempts = suc c.attempts;
      } in
      let (failed, w) = lib.scan fetcher c'.world in
      elim failed as (λ _. Checker F D W) [
        | some e ↦ record c' { world = w }
        | none ↦ record c' { world = (lib.update client w).1; successes = suc c'.successes }
      ]

  -- The updater at hand, or else a new one, if `updater` makes it.
  unfoldable pub available : Option (F × D) → W → Option (F × D) × W
  available none w = lib.updater w
  available (some u) w = (some u, w)

  unfoldable pub with_updater : Checker F D W → Option (F × D) × W → Checker F D W
  with_updater c (none, w) = record c { world = w }
  with_updater c (some u, w) = scan_and_update (record c { world = w }) u

  -- what a value of the channel sets off
  unfoldable pub on_trigger : Checker F D W → Checker F D W
  on_trigger c = with_updater c (available c.found c.world)

  -- What can happen: of the goroutines, the steps that the channel and the context allow; a
  -- request for `/updatecheck`, which sends to the same channel; and that the context is cancelled.
  pub data Step : State (Checker F D W) → State (Checker F D W) → Type 0 where
    tick : (s : State (Checker F D W)) → s.ticker ≡ waiting → Step s (record s { ticker = sending })
    send :
        (s : State (Checker F D W))
        → s.ticker ≡ sending
        → s.queued < capacity
        → Step s (record s { ticker = waiting; queued = suc s.queued })
    stop :
        (s : State (Checker F D W))
        → s.ticker ≡ waiting
        → s.cancelled ≡ true
        → Step s (record s { ticker = stopped; closed = true })
    request :
        (s : State (Checker F D W))
        → s.closed ≡ false
        → s.queued < capacity
        → Step s (record s { queued = suc s.queued })
    receive :
        (s : State (Checker F D W)) (n : ℕ)
        → s.returned ≡ false
        → s.queued ≡ suc n
        → Step s (record s { queued = n; checker = on_trigger s.checker })
    drained :
        (s : State (Checker F D W))
        → s.returned ≡ false
        → s.queued ≡ 0
        → s.closed ≡ true
        → Step s (record s { returned = true })
    leave :
        (s : State (Checker F D W))
        → s.returned ≡ false
        → s.cancelled ≡ true
        → Step s (record s { returned = true })
    cancel : (s : State (Checker F D W)) → Step s (record s { cancelled = true })

  -- any number of steps
  pub data Steps : State (Checker F D W) → State (Checker F D W) → Type 0 where
    here : (s : State (Checker F D W)) → Steps s s
    then : (s t u : State (Checker F D W)) → Steps s t → Step t u → Steps s u

  abbrev pub initial : W → State (Checker F D W)
  initial w = record {
    ticker = waiting;
    queued = 0;
    closed = false;
    returned = false;
    cancelled = false;
    checker = record { found = none; attempts = 0; successes = 0; world = w };
  }
