-- ===== src/Collector/Tests.antt =====
-- Tests of the collector at concrete inputs.
use smart_trucks.Base.{ℕ, true, false, none, some, [], ◌∷◌, refl}
use smart_trucks.Base.Text.{Text, codes}
use smart_trucks.Base.Ticks.{tick_floats}
use smart_trucks.Retry.{Attempt, returned, run_with_retry, attempt_loop, attempts_of}
use smart_trucks.Gps.Filter.{GpsTrackFilter}
use smart_trucks.Sync.Queue.{TableName}
use smart_trucks.Db.{Database, RetryCount}
use smart_trucks.Collector.Track.{LockedGps, Runtime, TrackEvent, Config, Answers, Collector}
use smart_trucks.Collector.Track.Sequence.{IsWritten, InStep, run_ticks, run_ticks-InStep}
use smart_trucks.Collector.Maintenance
use smart_trucks.Collector.Maintenance.Kept.{Extends, maintain-Extends}

abbrev twice : RetryCount
twice = record { is_negative = false; count = 1 }

abbrev goes_through : ℕ → Attempt (Unit {0})
goes_through n = returned tt

abbrev empty_database : Database ℕ ℕ
empty_database = record { store = λ t. []; next_id = λ t. 1; wake_signals = []; next_signal_id = 1 }

abbrev sampling : Config tick_floats
sampling = record {
  vehicle_id = codes "truck";
  sample_interval = 5;
  moving_interval = 1;
  retries = twice;
}

abbrev first_fix : LockedGps tick_floats
first_fix = record {
  device = codes "serial";
  latitude = 45;
  longitude = 9;
  altitude_m = none;
  speed_kmh = some 0;
  hdop = some 1;
  heading = none;
  satellites = 8;
  gps_timestamp = none;
}

abbrev fresh_filter : GpsTrackFilter tick_floats
fresh_filter = record {
  config = record {
    stationary_speed_kmh = 3;
    stationary_radius_m = 35;
    min_track_distance_m = 10;
    stationary_hold_seconds = 60;
    max_hdop = 5;
    keepalive_seconds = 300;
  };
  state = none;
  anchor_lat = none;
  anchor_lon = none;
  progress_lat = none;
  progress_lon = none;
  last_progress_monotonic = 0;
  last_emit_monotonic = none;
}

abbrev collecting : Collector tick_floats ℕ
collecting = record {
  track_filter = fresh_filter;
  last_processed_fix_utc = some (codes "t1");
  runtime = record {
    last_gps_fix_utc = some (codes "t1");
    gps_reader_ok = true;
    latest_valid_gps = some first_fix;
    stabilized_gps = none;
    last_locked_gps_point_utc = none;
    local_sequence = 0;
  };
  database = empty_database;
}

abbrev answers : Answers tick_floats
answers = record {
  is_parked = false;
  captured_at = codes "t2";
  now_monotonic = 10;
  fix_age = some 4;
  attempt = goes_through;
}

abbrev digits : ℕ → Text
digits n = codes "00000001"

abbrev encoded : TrackEvent tick_floats → ℕ
encoded e = 7

-- The reader has stamped a new fix.
abbrev reads_on : Runtime tick_floats → Runtime tick_floats
reads_on s = record s { last_gps_fix_utc = some (codes "t2") }

written : IsWritten tick_floats digits encoded sampling answers
unfolding run_with_retry attempt_loop attempts_of
written = refl

run_ticks-InStep_example :
    InStep tick_floats digits encoded sampling collecting
      (run_ticks tick_floats digits encoded sampling ((reads_on, answers) ∷ []) collecting)
run_ticks-InStep_example =
    run_ticks-InStep tick_floats digits encoded sampling ((reads_on, answers) ∷ []) collecting
      (written, tt)

abbrev upkeep : Maintenance.Config
upkeep = record {
  is_warehouse = false;
  queue_alert_depth = 100;
  vehicle_id = codes "truck";
  retries = twice;
}

abbrev meets : Maintenance.Answers ℕ
meets = record {
  is_parked = false;
  stats_readable = true;
  fix_age = some 4;
  disk_free_mb = 900;
  is_disk_low = false;
  is_connected = true;
  captured_at = codes "t2";
  last_gps_fix_utc = some (codes "t1");
  heartbeat_attempt = goes_through;
  health_attempt = goes_through;
  purge_attempt = goes_through;
  cutoff_3_days = codes "s8";
  cutoff_7_days = codes "s4";
}

maintain-Extends_example : Extends 2 (empty_database.store TableName.heartbeats) (
    (Maintenance.maintain
        (λ alerts stats a. 1)
        (λ alerts stats a. 2)
        upkeep
        meets
        empty_database).store
      TableName.heartbeats)
maintain-Extends_example =
    maintain-Extends (λ alerts stats a. 1) (λ alerts stats a. 2) upkeep meets empty_database
      TableName.heartbeats
