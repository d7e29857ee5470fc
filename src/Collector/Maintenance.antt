-- ===== src/Collector/Maintenance.antt =====
-- telematics-edge/main.py: `build_power_metrics_payload` and the loop of `maintenance_worker`, on the shared database. What the
-- clock, the disk and the network say, and the end of each write's attempts, are a turn's answers.
pub mod Kept
use smart_trucks.Base.{
  ℕ, suc, ◌+◌, ◌≤◌, Bool, true, false, ◌&&◌, ◌||◌, not, ltb, leb, Option, none, some, is_some,
  if◌then◌else◌, List, [], ◌∷◌, ◌++◌, keep_if, ◌≡◌, refl, sym, ◌∙◌, ap, arith, if_either,
}
use smart_trucks.Base.Int.{ℤ, pos, negsuc}
use smart_trucks.Base.Text.{Text, codes, text_eq, join}
use smart_trucks.Retry.{Attempt, returned, operational_error, other_error, run_with_retry}
use smart_trucks.Sync.Queue.{TableName, heartbeats, edge_health, Row, pending}
use smart_trucks.Anchor.Json.{Json, null, text, object, Fields, get_none}
use smart_trucks.Collector.Parked.{power_payload}
use smart_trucks.Db.{
  Database, Columns, RetryCount, HealthColumns, HeartbeatColumns, heartbeat_columns, health_columns,
  committed, inserted, execute_write_with_retry, insert_heartbeat, record_edge_health,
}
use smart_trucks.Db.Queries.{Stats, get_db_stats}
use smart_trucks.Db.Purge.{purge_old_sent_rows, purge_old_sent_rows-KeepsPending}

-- The keys that `build_power_metrics_payload` sets.
pub record PowerMetrics : Type 0 where
  pub voltage_v : Json
  pub snapshot_found : Bool
  pub snapshot_stale : Bool
  pub snapshot_age_sec : Option ℕ
  pub is_absent : Bool  -- whether "status" is set to "absent"

abbrev or_bus : Json → Json → Json
or_bus null v = v
or_bus v w = v

abbrev is_ok_text : Json → Bool
is_ok_text (text t) = text_eq t (codes "ok")
is_ok_text _ = false

-- An age past the limit, or unknown.
abbrev too_old : ℕ → Option ℕ → Bool
too_old limit none = true
too_old limit (some age) = ltb limit age

-- `build_power_metrics_payload`, with the snapshot's age given: the metrics, and whether the monitor is in order.
unfoldable pub build_power_metrics : ℕ → Option (Text × Json) → Option ℕ → PowerMetrics × Bool
build_power_metrics limit snapshot age =
    let fs = power_payload snapshot in
    let is_found = is_some snapshot in
    let is_stale = too_old limit age in
    (
      record {
        voltage_v = or_bus (get_none (codes "voltage_v") fs) (get_none (codes "bus_voltage_v") fs);
        snapshot_found = is_found;
        snapshot_stale = is_stale;
        snapshot_age_sec = age;
        is_absent = not is_found;
      },
      is_found && not is_stale && is_ok_text (get_none (codes "status") fs),
    )

pub data Alert : Type 0 where
  gps_reader_stale queue_depth_high disk_free_low wifi_disconnected : Alert

pub record Config : Type 0 where
  pub is_warehouse : Bool
  pub queue_alert_depth : ℕ
  pub vehicle_id : Text
  pub retries : RetryCount

pub record Answers (F : Type 0) : Type 0 where
  pub is_parked : Bool
  pub stats_readable : Bool
  pub fix_age : Option ℕ  -- `age_seconds(state.last_gps_fix_utc)`
  pub disk_free_mb : F
  pub is_disk_low : Bool  -- `disk_free_mb < 250`
  pub is_connected : Bool
  pub captured_at : Text
  pub last_gps_fix_utc : Option Text
  pub heartbeat_attempt : ℕ → Attempt (Unit {0})
  pub health_attempt : ℕ → Attempt (Unit {0})
  pub purge_attempt : ℕ → Attempt (Unit {0})
  pub cutoff_3_days : Text
  pub cutoff_7_days : Text

abbrev alert_if : Bool → Alert → List Alert → List Alert
alert_if test alert more = if test then alert ∷ more else more

abbrev stale_reader : Option ℕ → Bool
stale_reader none = false
stale_reader (some age) = ltb 300 age

-- `queue_depth > config.queue_alert_depth`; without statistics the depth is -1, which is above no limit.
abbrev deep_queue : ℕ → Option Stats → Bool
deep_queue limit none = false
deep_queue limit (some s) = ltb limit s.queue_depth

unfoldable pub alerts_of : {F : Type 0} → Config → Answers F → Option Stats → List Alert
alerts_of cfg a stats = alert_if (not cfg.is_warehouse && stale_reader a.fix_age) gps_reader_stale (
    alert_if (deep_queue cfg.queue_alert_depth stats) queue_depth_high
      (alert_if a.is_disk_low disk_free_low (alert_if (not a.is_connected) wifi_disconnected [])))

abbrev pub depth_of : Option Stats → ℤ
depth_of none = negsuc 0
depth_of (some s) = pos s.queue_depth

abbrev state_of : List Alert → Text
state_of [] = codes "ok"
state_of (a ∷ alerts) = codes "degraded"

module _ {F P : Type 0} (encode_heartbeat : List Alert → Option Stats → Answers F → P)
    (encode_health : List Alert → Option Stats → Answers F → P) (cfg : Config) where
  -- The row of `edge_health`.
  abbrev pub health_of : Answers F → Option Stats → List Alert → HealthColumns F
  health_of a stats alerts = record {
    last_gps_fix_utc = a.last_gps_fix_utc;
    last_upload_success_utc = none;
    queue_depth = depth_of stats;
    disk_free_mb = some a.disk_free_mb;
    wifi_state = some (if a.is_connected then codes "connected" else codes "disconnected");
    process_state = some (state_of alerts);
  }

  abbrev pub beat_columns : HeartbeatColumns
  beat_columns = record { vehicle_id = cfg.vehicle_id; heartbeat_type = codes "edge_health" }

  abbrev pub health_recorded : Answers F → Database F P → Database F P
  health_recorded a db =
      let stats = get_db_stats a.stats_readable db in
      let alerts = alerts_of cfg a stats in
      record_edge_health cfg.retries a.health_attempt a.captured_at (some a.captured_at)
        (health_of a stats alerts) (encode_health alerts stats a)
        (insert_heartbeat cfg.retries a.heartbeat_attempt a.captured_at beat_columns
          (encode_heartbeat alerts stats a) db)

  -- A turn of the loop of `maintenance_worker`, behind its sleep.
  unfoldable pub maintain : Answers F → Database F P → Database F P
  unfolding alerts_of
  maintain a db =
      if a.is_parked
      then db
      else (purge_old_sent_rows cfg.retries a.purge_attempt
          (if a.is_disk_low then a.cutoff_3_days else a.cutoff_7_days) (health_recorded a db)).0
