-- ===== src/Checker/Counting.antt =====
-- trusted_applet/main.go: what updateChecker counts.
use armored_witness_applet.Prelude.{ℕ, ◌+◌, ◌≡◌, Option, none, some, arith}
use armored_witness_applet.Checker.{
  Checker, Updates, scan_and_update, on_trigger, available, with_updater,
}

module _ {F D W : Type 0} (lib : Updates F D W) where
  -- 1 where there is an updater
  abbrev pub tried : Option (F × D) × W → ℕ
  tried (none, w) = 0
  tried (some u, w) = 1

  -- 1 where there is one, and its Scan returns no error
  abbrev pub scanned : Option (F × D) × W → ℕ
  scanned (none, w) = 0
  scanned (some u, w) = elim (lib.scan u.0 w).0 [ none ↦ 1 | some e ↦ 0 ]

  scan_and_update-counters :
      (c : Checker F D W) (u : F × D)
      → ((scan_and_update lib c u).attempts ≡ c.attempts + 1)
        × ((scan_and_update lib c u).successes ≡ c.successes + scanned (some u, c.world))
  unfolding scan_and_update
  scan_and_update-counters c u = ground arith

  with_updater-counters :
      (c : Checker F D W) (u : Option (F × D) × W)
      → ((with_updater lib c u).attempts ≡ c.attempts + tried u)
        × ((with_updater lib c u).successes ≡ c.successes + scanned u)
  unfolding with_updater
  with_updater-counters c (none, w) = (omega arith, omega arith)
  with_updater-counters c (some u, w) = scan_and_update-counters (record c { world = w }) u

  -- A trigger counts an attempt exactly where there is an updater, the one at hand or a new one, and
  -- a success exactly where its Scan returns no error, whatever Update then returns.
  pub on_trigger-counters :
      (c : Checker F D W)
      → ((on_trigger lib c).attempts ≡ c.attempts + tried (available lib c.found c.world))
        × ((on_trigger lib c).successes ≡ c.successes + scanned (available lib c.found c.world))
  unfolding on_trigger
  on_trigger-counters c = with_updater-counters c (available lib c.found c.world)
