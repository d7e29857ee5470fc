-- ===== src/Sync/Tests.antt =====
-- Tests of sync-service at concrete inputs.
use smart_trucks.Base.{
  ℕ, true, false, none, some, [], ◌∷◌, ◌≡◌, refl, arith, any_of, if◌then◌else◌, ◌==◌,
}
use smart_trucks.Base.Result.{ok, is_ok}
use smart_trucks.Base.Text.{codes}
use smart_trucks.Sync.Queue.{
  heartbeats, gps_points, edge_health, ble_scans, Row, Store, select_pending, contents, sent_marks,
}
use smart_trucks.Sync.Cycle.{
  World, Reply, response, transport_error, SyncOutcome, sync_cycle, load_tables, load_pending_rows,
  batch_limit, all_rows, saturated,
}
use smart_trucks.Sync.Cycle.Selected.{selected}
use smart_trucks.Sync.Cycle.Outcome.{
  Succeeds, sync_cycle_ok, sync_cycle_keeps_rows, sync_cycle_unaccepted,
}
use smart_trucks.Sync.Cycle.Drain.{KeysDistinct, pending_total, sync_cycle_drained}
use smart_trucks.Sync.Cycle.Healthy.{IsHealthy, drain, drain_empties}
use smart_trucks.Sync.Cycle.Poison.{undecodable, sync_cycle_poisoned}
use smart_trucks.Sync.Loop.{Loop, Turn, interval}

-- A payload that is 0 is no JSON.
abbrev world_with : Reply → World ℕ ℕ
world_with reply = record {
  batch_size = 1;
  ble_batch_size = 50;
  readable = λ t. ok tt;
  writable = λ t. ok tt;
  decode = λ j. if j == 0 then none else some j;
  send = λ ps. reply;
  now = codes "2025-01-01T00:00:00Z";
}

abbrev row : ℕ → ℕ → Row ℕ
row k payload = record {
  id = k;
  captured_at_utc = codes "2024-12-31T00:00:00Z";
  payload_json = payload;
  sent_at_utc = none;
  attempt_count = 0;
}

abbrev two_points : Store ℕ
two_points gps_points = row 2 20 ∷ row 1 10 ∷ []
two_points heartbeats = []
two_points edge_health = []
two_points ble_scans = []

abbrev one_beat : Store ℕ
one_beat heartbeats = row 1 5 ∷ []
one_beat gps_points = []
one_beat edge_health = []
one_beat ble_scans = []

abbrev beat_and_points : Store ℕ
beat_and_points heartbeats = row 2 6 ∷ row 1 5 ∷ []
beat_and_points gps_points = row 2 20 ∷ row 1 10 ∷ []
beat_and_points edge_health = []
beat_and_points ble_scans = []

abbrev bad_point : Store ℕ
bad_point gps_points = row 1 0 ∷ []
bad_point heartbeats = row 1 5 ∷ []
bad_point edge_health = []
bad_point ble_scans = []

abbrev one_sent : SyncOutcome
one_sent = record { is_ok = true; sent = 1; more_pending = true }

-- One full batch, and more to come.
cycle_sends_one : (sync_cycle (world_with (response 200)) two_points).1 ≡ ok one_sent
unfolding sync_cycle load_tables load_pending_rows select_pending batch_limit all_rows saturated
cycle_sends_one = refl

sync_cycle_ok_example :
    Succeeds
      (world_with (response 200))
      two_points
      (sync_cycle (world_with (response 200)) two_points).0
      one_sent
sync_cycle_ok_example =
    sync_cycle_ok (world_with (response 200)) two_points one_sent cycle_sends_one refl

sync_cycle_keeps_rows_example :
    contents ((sync_cycle (world_with transport_error) two_points).0 gps_points)
    ≡ contents (two_points gps_points)
sync_cycle_keeps_rows_example =
    sync_cycle_keeps_rows (world_with transport_error) two_points gps_points

sync_cycle_unaccepted_example :
    sent_marks ((sync_cycle (world_with (response 404)) two_points).0 gps_points)
    ≡ sent_marks (two_points gps_points)
sync_cycle_unaccepted_example =
    sync_cycle_unaccepted (world_with (response 404)) two_points gps_points (λ ps. refl)

distinct_points : KeysDistinct two_points
distinct_points gps_points = (refl, (refl, tt))
distinct_points heartbeats = tt
distinct_points edge_health = tt
distinct_points ble_scans = tt

distinct_beat : KeysDistinct one_beat
distinct_beat heartbeats = (refl, tt)
distinct_beat gps_points = tt
distinct_beat edge_health = tt
distinct_beat ble_scans = tt

abbrev wide : World ℕ ℕ
wide = record (world_with (response 204)) { batch_size = 9; decode = λ j. some j }

abbrev last_sent : SyncOutcome
last_sent = record { is_ok = true; sent = 1; more_pending = false }

cycle_drains : (sync_cycle wide one_beat).1 ≡ ok last_sent
unfolding sync_cycle load_tables load_pending_rows select_pending batch_limit all_rows saturated
cycle_drains = refl

sync_cycle_drained_example : pending_total (sync_cycle wide one_beat).0 ≡ 0
sync_cycle_drained_example =
    sync_cycle_drained wide one_beat last_sent distinct_beat (omega arith, omega arith) cycle_drains
      refl refl

wide-IsHealthy : IsHealthy wide
wide-IsHealthy = record {
  batches = (omega arith, omega arith);
  reads = λ t. refl;
  writes = λ t. refl;
  decodes = λ j. refl;
  accepts = λ ps. refl;
}

drain_empties_example : pending_total (drain (wide ∷ wide ∷ []) two_points) ≡ 0
drain_empties_example =
    drain_empties (wide ∷ wide ∷ []) two_points distinct_points
      (wide-IsHealthy, (wide-IsHealthy, tt)) (omega arith)

bad_selected :
    any_of
      (undecodable (world_with (response 200)))
      (selected (world_with (response 200)) bad_point gps_points)
    ≡ true
unfolding select_pending batch_limit
bad_selected = refl

sync_cycle_poisoned_example :
    ((sync_cycle (world_with (response 200)) bad_point).0 ≡ bad_point)
    × (is_ok (sync_cycle (world_with (response 200)) bad_point).1 ≡ false)
sync_cycle_poisoned_example =
    sync_cycle_poisoned (world_with (response 200)) bad_point gps_points bad_selected

abbrev quiet_loop : Loop ℕ ℕ
quiet_loop = record {
  store = beat_and_points;
  beacon_sent = false;
  beacons = [];
  cycles = 0;
  last_sleep = interval;
}

abbrev awake_turn : Turn ℕ ℕ
awake_turn = record { world = world_with (response 200); suspended = false }

abbrev asleep_turn : Turn ℕ ℕ
asleep_turn = record { world = world_with (response 200); suspended = true }
