-- ===== src/Watchdog/Tests.antt =====
-- Tests of the watchdog at concrete inputs.
use smart_trucks.Base.{true, false, none, some, List, [], ◌∷◌}
use smart_trucks.Watchdog.{Config, State, Check, worker}
use smart_trucks.Watchdog.Restarts.{Justified, worker-Justified}

abbrev settings : Config
settings = record { stale_seconds = 300; restart_cooldown_seconds = 600; boot_grace_seconds = 180 }

abbrev fresh : State
fresh = record { last_heartbeat_age = none; last_restart_monotonic = none; restart_count = 0 }

abbrev checks : List Check
checks =
    record { now = 100; age = some 900; restart_ok = true }
    ∷ record { now = 200; age = some 900; restart_ok = true }
    ∷ record { now = 300; age = some 900; restart_ok = true }
    ∷ record { now = 900; age = some 900; restart_ok = false }
    ∷ []

worker-Justified_example : Justified settings 0 none (worker settings 0 fresh checks).1
worker-Justified_example = worker-Justified settings 0 fresh checks
