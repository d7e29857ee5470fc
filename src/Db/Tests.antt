-- ===== src/Db/Tests.antt =====
-- Tests of the edge database at concrete inputs.
use smart_trucks.Base.{ℕ, false, none, some, [], ◌∷◌, ◌≡◌, ◌≤◌, refl, arith}
use smart_trucks.Base.Text.{codes}
use smart_trucks.Base.Result.{ok}
use smart_trucks.Retry.{Attempt, returned, run_with_retry, attempt_loop, attempts_of}
use smart_trucks.Sync.Cycle.{World, response}
use smart_trucks.Sync.Cycle.Drain.{pending_total}
use smart_trucks.Sync.Cycle.Healthy.{IsHealthy, drain}
use smart_trucks.Db.{
  RetryCount, GpsColumns, Columns, Database, execute_write_with_retry, insert_gps_point,
}
use smart_trucks.Db.Purge.{KeepsPending, purge_old_sent_rows, purge_old_sent_rows-KeepsPending}
use smart_trucks.Db.Pipeline.{created, stepped, point_inserted, Reached-drain}

abbrev twice : RetryCount
twice = record { is_negative = false; count = 1 }

abbrev goes_through : ℕ → Attempt (Unit {0})
goes_through n = returned tt

abbrev new_database : Database ℕ ℕ
new_database = record { store = λ t. []; next_id = λ t. 1; wake_signals = []; next_signal_id = 1 }

abbrev point : GpsColumns ℕ
point = record {
  vehicle_id = codes "truck";
  lat = some 45;
  lon = some 9;
  speed_kmh = some 30;
  fix_status = codes "locked";
  source_device = none;
  trip_id = none;
  local_sequence = 1;
}

abbrev with_point : Database ℕ ℕ
with_point = insert_gps_point twice goes_through (codes "2025-01-01T00:00:00Z") point 7 new_database

abbrev healthy : World (Columns ℕ × ℕ) ℕ
healthy = record {
  batch_size = 9;
  ble_batch_size = 9;
  readable = λ t. ok tt;
  writable = λ t. ok tt;
  decode = λ j. some j.1;
  send = λ ps. response 204;
  now = codes "2025-01-01T00:01:00Z";
}

healthy-IsHealthy : IsHealthy healthy
healthy-IsHealthy = record {
  batches = (omega arith, omega arith);
  reads = λ t. refl;
  writes = λ t. refl;
  decodes = λ j. refl;
  accepts = λ ps. refl;
}

one_pending : pending_total with_point.store ≤ 1
unfolding insert_gps_point execute_write_with_retry run_with_retry attempt_loop attempts_of
one_pending = omega arith

Reached-drain_example : pending_total (drain (healthy ∷ []) with_point.store) ≡ 0
Reached-drain_example =
    Reached-drain (healthy ∷ [])
      (stepped created (point_inserted twice goes_through (codes "2025-01-01T00:00:00Z") point 7))
      (healthy-IsHealthy, tt) one_pending

purge_old_sent_rows-KeepsPending_example :
    KeepsPending with_point
      (purge_old_sent_rows twice goes_through (codes "2025-01-08T00:00:00Z") with_point)
purge_old_sent_rows-KeepsPending_example =
    purge_old_sent_rows-KeepsPending twice goes_through (codes "2025-01-08T00:00:00Z") with_point
