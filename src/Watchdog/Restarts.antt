-- ===== src/Watchdog/Restarts.antt =====
-- wifi-provisioner/edge_watchdog.py: when the watchdog calls a restart.
use smart_trucks.Base.{
  ℕ, ◌+◌, ◌-◌, ◌≤◌, true, Option, none, some, List, [], ◌∷◌, ◌≡◌, arith, keep_if, length,
  if◌then◌else◌,
}
use smart_trucks.Watchdog.{Config, State, Check, check, worker, watchdog_should_restart}

module _ (cfg : Config) (started : ℕ) where
  -- A check that calls for a restart on its own: past the boot grace, with a stale heartbeat.
  abbrev pub Alarmed : Check → Type 0
  Alarmed c =
      (cfg.boot_grace_seconds ≤ c.now - started)
      × (watchdog_should_restart c.age cfg.stale_seconds ≡ true)

  -- The last restart that went through is a cooldown old.
  abbrev pub Rested : Option ℕ → Check → Type 0
  Rested none c = Unit
  Rested (some last) c = cfg.restart_cooldown_seconds ≤ c.now - last

  -- Every restart called is called for, and the last one that the Supervisor took, before the run or in
  -- it, lies a cooldown back.
  abbrev pub Justified : Option ℕ → List Check → Type 0
  Justified last [] = Unit
  Justified last (c ∷ cs) =
      Alarmed c × Rested last c × Justified (if c.restart_ok then some c.now else last) cs

  -- For any checks at all: every restart that the watchdog calls comes after the boot grace, at a check
  -- whose heartbeat is known and stale, and at least a cooldown after the last restart that the
  -- Supervisor took.
  pub worker-Justified :
      (s : State) (cs : List Check) → Justified s.last_restart_monotonic (worker cfg started s cs).1
  unfolding worker check
  worker-Justified s [] = tt
  worker-Justified s (c ∷ cs) = ground (arith, worker-Justified (check cfg started s c).0 cs)

  -- The restart counter grows by the number of restarts called that the Supervisor took.
  worker_counts :
      (s : State) (cs : List Check)
      → (worker cfg started s cs).0.restart_count
        ≡ s.restart_count + length (keep_if (λ c. c.restart_ok) (worker cfg started s cs).1)
  unfolding worker check
  worker_counts s [] = omega arith
  worker_counts s (c ∷ cs) = ground (arith, worker_counts (check cfg started s c).0 cs)

  -- A check past the boot grace with a known stale heartbeat, a cooldown after the last restart that
  -- went through, if any, calls a restart.
  check_restarts :
      (s : State) (c : Check)
      → Alarmed c
      → Rested s.last_restart_monotonic c
      → (check cfg started s c).1 ≡ true
  unfolding check
  check_restarts s c a r = ground arith
