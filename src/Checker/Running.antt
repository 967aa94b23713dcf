-- ===== src/Checker/Running.antt =====
-- trusted_applet/main.go: the runs of the goroutines of updateChecker.
use mathlib.Core.Path.{subst}
use armored_witness_applet.Prelude.{
  ◌≤◌, ◌≡◌, refl, sym, Option, none, some, true, false, arith, ◌↔◌,
}
use armored_witness_applet.Checker.{
  Checker, Updates, State, sending, stopped, capacity, Step, tick, send, stop, request, receive,
  drained, leave, cancel, Steps, here, then, initial, on_trigger, scan_and_update, available,
  with_updater,
}

module _ {F D W : Type 0} (lib : Updates F D W) where
  abbrev St : Type 0
  St = State (Checker F D W)

  -- The channel holds no more than it has room for, and fewer successes than attempts are counted.
  -- It is closed exactly where the ticker has stopped, and that, as the end of the other goroutine,
  -- only where the context is cancelled.
  pub record Good (s : St) : Type 0 where
    pub room : s.queued ≤ capacity
    pub counted : s.checker.successes ≤ s.checker.attempts
    pub closes : (s.closed ≡ true) ↔ (s.ticker ≡ stopped)
    pub over : s.closed ≡ true → s.cancelled ≡ true
    pub leaves : s.returned ≡ true → s.cancelled ≡ true

  with_updater-counted :
      (c : Checker F D W) (u : Option (F × D) × W)
      → c.successes ≤ c.attempts
      → (with_updater lib c u).successes ≤ (with_updater lib c u).attempts
  unfolding with_updater scan_and_update
  with_updater-counted c (none, w) h = h
  with_updater-counted c (some u, w) h = ground arith

  on_trigger-counted :
      (c : Checker F D W)
      → c.successes ≤ c.attempts
      → (on_trigger lib c).successes ≤ (on_trigger lib c).attempts
  unfolding on_trigger
  on_trigger-counted c h = with_updater-counted c (available lib c.found c.world) h

  initial-Good : (w : W) → Good (initial lib w)
  initial-Good w = record {
    room = omega arith;
    counted = omega arith;
    closes = (λ e. cc, λ e. cc);
    over = λ e. e;
    leaves = λ e. e;
  }

  Step-Good : (s t : St) → Step lib s t → Good s → Good t
  Step-Good _ _ (tick s w) g = record {
    room = g.room;
    counted = g.counted;
    closes = (λ e. absurd (cc (g.closes.0 e)), λ e. absurd (cc));
    over = g.over;
    leaves = g.leaves;
  }
  Step-Good _ _ (send s w n) g = record {
    room = omega arith;
    counted = g.counted;
    closes = (λ e. absurd (cc (g.closes.0 e)), λ e. absurd (cc));
    over = g.over;
    leaves = g.leaves;
  }
  Step-Good _ _ (stop s w c) g = record {
    room = g.room;
    counted = g.counted;
    closes = (λ e. refl, λ e. refl);
    over = λ e. c;
    leaves = g.leaves;
  }
  Step-Good _ _ (request s c n) g = record {
    room = omega arith;
    counted = g.counted;
    closes = g.closes;
    over = g.over;
    leaves = g.leaves;
  }
  Step-Good _ _ (receive s n r q) g = record {
    room = omega (arith, g.room);
    counted = on_trigger-counted s.checker g.counted;
    closes = g.closes;
    over = g.over;
    leaves = g.leaves;
  }
  Step-Good _ _ (drained s r q c) g = record {
    room = g.room;
    counted = g.counted;
    closes = g.closes;
    over = g.over;
    leaves = λ e. g.over c;
  }
  Step-Good _ _ (leave s r c) g = record {
    room = g.room;
    counted = g.counted;
    closes = g.closes;
    over = g.over;
    leaves = λ e. c;
  }
  Step-Good _ _ (cancel s) g = record {
    room = g.room;
    counted = g.counted;
    closes = g.closes;
    over = λ e. refl;
    leaves = λ e. refl;
  }

  -- In each state that updateChecker comes to, the channel holds one value at most, the successes
  -- are no more than the attempts, and the channel is closed exactly where the ticker has stopped. It
  -- is closed, and the other goroutine returns, only where the context is cancelled.
  pub Steps-Good : (w : W) (s : St) → Steps lib (initial lib w) s → Good s
  Steps-Good w s run = from w (initial lib w) s run refl
    where
      from : (w : W) (a s : St) → Steps lib a s → a ≡ initial lib w → Good s
      from w _ _ (here s) e = subst Good (sym e) (initial-Good w)
      from w _ _ (then a t u ts step) e = Step-Good t u step (from w a t ts e)

  -- A state in which the ticker's goroutine is left behind.
  pub record Stuck (s : St) : Type 0 where
    pub in_send : s.ticker ≡ sending
    pub full : s.queued ≡ capacity
    pub gone : s.returned ≡ true
    pub never_closed : s.closed ≡ false

  Step-Stuck : (s t : St) → Step lib s t → Stuck s → Stuck t
  Step-Stuck _ _ (tick s w) g = absurd (cc g.in_send)
  Step-Stuck _ _ (send s w n) g = absurd (omega (arith, g.full))
  Step-Stuck _ _ (stop s w c) g = absurd (cc g.in_send)
  Step-Stuck _ _ (request s c n) g = absurd (omega (arith, g.full))
  Step-Stuck _ _ (receive s n r q) g = absurd (cc g.gone)
  Step-Stuck _ _ (drained s r q c) g = absurd (cc g.gone)
  Step-Stuck _ _ (leave s r c) g = absurd (cc g.gone)
  Step-Stuck _ _ (cancel s) g = record {
    in_send = g.in_send;
    full = g.full;
    gone = g.gone;
    never_closed = g.never_closed;
  }

  -- The goroutine of the ticker can be left behind: where the other one has returned while the
  -- channel is full and the ticker is in its send, this is so in all that follows: it never stops,
  -- and the channel is never closed.
  pub Steps-Stuck : (s t : St) → Steps lib s t → Stuck s → Stuck t
  Steps-Stuck _ _ (here s) g = g
  Steps-Stuck _ _ (then s t u ts step) g = Step-Stuck t u step (Steps-Stuck s t ts g)
