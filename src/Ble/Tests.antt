-- ===== src/Ble/Tests.antt =====
-- Tests of the BLE scanner at concrete inputs.
use smart_trucks.Base.{ℕ, true, false, none, some, List, [], ◌∷◌, ◌≡◌, ◌-◌, length, refl, arith}
use smart_trucks.Base.Text.{Text, codes}
use smart_trucks.Base.Int.{negsuc}
use smart_trucks.Base.Ticks.{tick_floats}
use smart_trucks.Ble.Contention.{Config, Scanner, in_progress, Answers, run_turns}
use smart_trucks.Ble.Contention.Recovery.{leaves, run_turns-leaves}
use smart_trucks.Ble.Observers.{Candidate, rank_observers}
use smart_trucks.Ble.Observers.Nearest.{IsNamed, IsCount, rank_observers-IsNearest}
use smart_trucks.Ble.Resolver.{
  Times, Observation, Settings, rows_of, resolve_asset, resolve_positions,
}
use smart_trucks.Ble.Resolver.Winner.{IsResolved, resolve_asset-IsResolved}
use smart_trucks.Ble.Resolver.Filed.{Sane, Extended, resolve_positions-Extended}

abbrev scan_config : Config
scan_config = record {
  backoff_cap = 12000;
  cooldown_threshold = 3;
  max_attempts = 2;
  summary_interval = 600000;
  adapter_reset_enabled = true;
  adapter_reset_interval = 300000;
  restart_after_seconds = 600;
  post_interval = 60000;
  sentry_mode_enabled = false;
  suspend_poll = 5000;
}

abbrev busy : Answers
busy = record {
  is_suspended = false;
  poll_interval = 60000;
  scan = in_progress;
  now = 700000;
  jitter = 100;
  later = 701000;
}

abbrev stuck : Scanner
stuck = record {
  scan_retry_attempt = 0;
  contention_since = some 0;
  last_contention_log = 0;
  last_adapter_reset = 0;
}

run_turns-leaves_example : leaves (run_turns scan_config (busy ∷ busy ∷ []) stuck) ≡ true
run_turns-leaves_example =
    run_turns-leaves scan_config (busy ∷ busy ∷ []) stuck 0 refl
      ((refl, refl, omega arith), ((refl, refl, omega arith), tt)) (omega arith) (omega arith)
      (omega arith) (omega arith)

abbrev heard : Text → ℕ → Candidate ℕ
heard observer n = record {
  captured_at_utc = codes "2025-01-01T00:00:00Z";
  pi_id = codes "pi";
  latitude = none;
  longitude = none;
  score = 1;
  rssi = some (negsuc n);
  observer_id = observer;
}

abbrev candidates : List (Candidate ℕ)
candidates = heard (codes "anchor") 50 ∷ heard (codes "pi") 70 ∷ heard (codes "anchor") 54 ∷ []

rank_observers-IsNearest_example :
    IsNamed candidates (rank_observers candidates).0
    × IsCount candidates (rank_observers candidates).1
rank_observers-IsNearest_example = rank_observers-IsNearest candidates

-- A time is the length of its text.
abbrev lengths : Times ℕ
lengths = record { Time = ℕ; parse = λ t. some (length t); since = λ a b. a - b }

abbrev limits : Settings ℕ
limits = record {
  candidate_window_seconds = 60;
  stale_after_seconds = 180;
  tie_epsilon = 0;
  is_stationary = false;
  vehicle_id = codes "truck";
}

abbrev seen_at : ℕ → Observation ℕ
seen_at n = record {
  id = n;
  captured_at_utc = codes "2025-01-01T00:00:00Z";
  pi_id = codes "pi";
  mac = codes "AA:BB:CC:DD:EE:FF";
  rssi = some (negsuc 50);
  latitude = some 45;
  longitude = some 9;
  gps_age_seconds = some 4;
  observer_id = codes "pi";
}

resolve_asset-IsResolved_example :
    IsResolved tick_floats lengths limits
      (rows_of tick_floats lengths limits (codes "AA:BB:CC:DD:EE:FF") (seen_at 1 ∷ seen_at 2 ∷ []))
      (resolve_asset tick_floats lengths limits 20
        (codes "2025-01-01T00:00:10Z")
        (seen_at 1 ∷ seen_at 2 ∷ [])
        1
        []
        (codes "AA:BB:CC:DD:EE:FF"))
resolve_asset-IsResolved_example =
    resolve_asset-IsResolved tick_floats lengths limits 20 (codes "2025-01-01T00:00:10Z")
      (seen_at 1 ∷ seen_at 2 ∷ []) 1 [] (codes "AA:BB:CC:DD:EE:FF")

lengths_sane : Sane tick_floats lengths limits
lengths_sane t = ground arith

abbrev tracked : List (Text × Text)
tracked =
    (codes "AA:BB:CC:DD:EE:FF", codes "2025-01-01T00:00:10Z")
    ∷ (codes "00:11:22:33:44:55", codes "2025-01-01T00:00:11Z")
    ∷ []

resolve_positions-Extended_example :
    Extended tick_floats lengths limits
      (seen_at 1 ∷ seen_at 2 ∷ [])
      tracked
      1
      []
      (resolve_positions tick_floats lengths limits 20 (seen_at 1 ∷ seen_at 2 ∷ []) 1 tracked [])
resolve_positions-Extended_example =
    resolve_positions-Extended tick_floats lengths limits 20 (seen_at 1 ∷ seen_at 2 ∷ []) 1 tracked
      [] lengths_sane
