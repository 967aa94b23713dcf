-- ===== src/Checker/Draining.antt =====
-- trusted_applet/main.go: the triggers of updateChecker are looked at.
use armored_witness_applet.Prelude.{
  ℕ, zero, suc, ◌+◌, ◌≤◌, ◌≡◌, refl, sym, ap, ◌∙◌, Bool, true, false, arith,
}
use armored_witness_applet.Checker.{
  Checker, Updates, State, Ticker, waiting, sending, stopped, capacity, Step, tick, send, stop,
  request, receive, drained, leave, cancel, Steps, here, then, initial, on_trigger,
}
use armored_witness_applet.Checker.Running.{Good, Steps-Good}

module _ {F D W : Type 0} (lib : Updates F D W) where
  abbrev St : Type 0
  St = State (Checker F D W)

  -- `on_trigger`, as often as told
  unfoldable pub triggered : ℕ → Checker F D W → Checker F D W
  triggered zero c = c
  triggered (suc n) c = triggered n (on_trigger lib c)

  -- the ticks that are still to be sent
  abbrev pub unsent : Ticker → ℕ
  unsent waiting = 0
  unsent sending = 1
  unsent stopped = 0

  -- The triggers that a step brings up: a tick of the ticker, or a request for `/updatecheck`.
  unfoldable pub issued : (s t : St) → Step lib s t → ℕ
  issued _ _ (tick s w) = 1
  issued _ _ (send s w n) = 0
  issued _ _ (stop s w c) = 0
  issued _ _ (request s c n) = 1
  issued _ _ (receive s n r q) = 0
  issued _ _ (drained s r q c) = 0
  issued _ _ (leave s r c) = 0
  issued _ _ (cancel s) = 0

  unfoldable pub triggers : (s t : St) → Steps lib s t → ℕ
  triggers _ _ (here s) = 0
  triggers _ _ (then s t u ts step) = triggers s t ts + issued t u step

  -- Of `n` triggers, each has been looked at, is queued, or is in its send.
  pub record Accounted (c : Checker F D W) (s : St) (n : ℕ) : Type 0 where
    pub looked : ℕ
    pub checked : s.checker ≡ triggered looked c
    pub count : n ≡ looked + (s.queued + unsent s.ticker)

  triggered-on_trigger :
      (n : ℕ) (c : Checker F D W) → on_trigger lib (triggered n c) ≡ triggered (suc n) c
  unfolding triggered
  triggered-on_trigger zero c = refl
  triggered-on_trigger (suc n) c = triggered-on_trigger n (on_trigger lib c)

  Step-Accounted :
      (c : Checker F D W) (s t : St) (n : ℕ) (step : Step lib s t)
      → Accounted c s n
      → Accounted c t (n + issued s t step)
  unfolding issued
  Step-Accounted c _ _ n (tick s w) a = record {
    looked = a.looked;
    checked = a.checked;
    count = omega (arith, a.count, ap unsent w);
  }
  Step-Accounted c _ _ n (send s w r) a = record {
    looked = a.looked;
    checked = a.checked;
    count = omega (arith, a.count, ap unsent w);
  }
  Step-Accounted c _ _ n (stop s w e) a = record {
    looked = a.looked;
    checked = a.checked;
    count = omega (arith, a.count, ap unsent w);
  }
  Step-Accounted c _ _ n (request s e r) a = record {
    looked = a.looked;
    checked = a.checked;
    count = omega (arith, a.count);
  }
  Step-Accounted c _ _ n (receive s k r q) a = record {
    looked = suc a.looked;
    checked = ap (on_trigger lib) a.checked ∙ triggered-on_trigger a.looked c;
    count = omega (arith, a.count, q);
  }
  Step-Accounted c _ _ n (drained s r q e) a = record {
    looked = a.looked;
    checked = a.checked;
    count = omega (arith, a.count);
  }
  Step-Accounted c _ _ n (leave s r e) a = record {
    looked = a.looked;
    checked = a.checked;
    count = omega (arith, a.count);
  }
  Step-Accounted c _ _ n (cancel s) a = record {
    looked = a.looked;
    checked = a.checked;
    count = omega (arith, a.count);
  }

  Steps-Accounted :
      (s t : St) (run : Steps lib s t)
      → s.queued ≡ 0
      → s.ticker ≡ waiting
      → Accounted s.checker t (triggers s t run)
  unfolding triggers triggered
  Steps-Accounted _ _ (here s) empty waits = record {
    looked = 0;
    checked = refl;
    count = omega (arith, empty, ap unsent waits);
  }
  Steps-Accounted _ _ (then s t u ts step) empty waits =
      Step-Accounted s.checker t u (triggers s t ts) step (Steps-Accounted s t ts empty waits)

  -- A run that ends with the ticker waiting and the channel empty, after `n` triggers.
  abbrev pub Serves : St → ℕ → Type 0
  Serves s n =
      (t : St) × Steps lib s t
      × (t.ticker ≡ waiting)
      × (t.queued ≡ 0)
      × (t.checker ≡ triggered n s.checker)

  received : St → St
  received s = record s { queued = 0; checker = on_trigger lib s.checker }

  sent : St → St
  sent s = record s { ticker = waiting; queued = suc s.queued }

  one_step : (s t : St) → Step lib s t → Steps lib s t
  one_step s t step = then s s t (here s) step

  append : (s t u : St) → Steps lib s t → Steps lib t u → Steps lib s u
  append s _ _ ts (here t) = ts
  append s _ _ ts (then t v u vs step) = then s v u (append s t v ts vs) step

  -- a tick that waits for its place, in an empty channel
  serve_sending : (s : St) → s.returned ≡ false → s.ticker ≡ sending → s.queued ≡ 0 → Serves s 1
  unfolding triggered received sent
  serve_sending s alive tick_waits empty = (
    received (sent s),
    then s (sent s) (received (sent s))
        (one_step s (sent s) (send s tick_waits (omega (arith, empty))))
        (receive (sent s) 0 alive (ap suc empty)),
    refl,
    refl,
    refl,
  )

  serve_queued :
      (s : St) (n : ℕ)
      → s.returned ≡ false
      → s.queued ≡ 1
      → Serves (received s) n
      → Serves s (suc n)
  unfolding triggered received
  serve_queued s n alive full (t, run, waits, empty, looked) = (
    t,
    append s (received s) t (one_step s (received s) (receive s 0 alive full)) run,
    waits,
    empty,
    looked,
  )

  serve :
      (s : St) (k : Ticker) (n : ℕ)
      → s.returned ≡ false
      → ¬ (k ≡ stopped)
      → n ≤ capacity
      → s.ticker ≡ k
      → s.queued ≡ n
      → Serves s (n + unsent k)
  unfolding triggered received
  serve s waiting zero alive open_yet room at empty = (s, here s, at, empty, refl)
  serve s sending zero alive open_yet room at empty = serve_sending s alive at empty
  serve s waiting (suc zero) alive open_yet room at full =
      serve_queued s 0 alive full (received s, here (received s), at, refl, refl)
  serve s sending (suc zero) alive open_yet room at full =
      serve_queued s 1 alive full (serve_sending (received s) alive at refl)
  serve s stopped n alive open_yet room at full = absurd (open_yet refl)
  serve s k (suc (suc n)) alive open_yet room at full = absurd (omega arith)

  -- In each run of updateChecker, every tick of the ticker and every request has set off one look
  -- for updates, is queued, or is still in its send: none is dropped, and none counts twice. And
  -- before the context is cancelled, a run goes on from there to a state in which the ticker waits
  -- for its next tick, the channel is empty, and each trigger that was queued, or in its send, has
  -- been looked at.
  pub triggers_served :
      (w : W) (s : St) (run : Steps lib (initial lib w) s)
      → Accounted (initial lib w).checker s (triggers (initial lib w) s run)
        × (s.cancelled ≡ false → Serves s (s.queued + unsent s.ticker))
  triggers_served w s run = (Steps-Accounted (initial lib w) s run refl refl, served)
    where
      wrong : false ≡ true → ⊥
      wrong e = cc

      not_yet : s.cancelled ≡ false → (b : Bool) → (b ≡ true → s.cancelled ≡ true) → b ≡ false
      not_yet live true h = absurd (wrong (sym live ∙ h refl))
      not_yet live false h = refl

      served : s.cancelled ≡ false → Serves s (s.queued + unsent s.ticker)
      served live =
          let g : Good lib s = Steps-Good lib w s run in
          serve s s.ticker s.queued (not_yet live s.returned g.leaves)
            (λ e. wrong (sym live ∙ g.over (g.closes.1 e))) g.room refl refl
