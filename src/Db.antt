-- ===== src/Db.antt =====
-- telematics-edge/db.py: the edge's shared SQLite database. Its queue tables are the ones that sync-service reads; a row's
-- payload stands with the columns that sync-service does not read. An operation takes the end of each attempt of
-- its write, as SQLite answers.
mod Tests
pub mod Queries
pub mod Purge
pub mod Keys
pub mod Pipeline
use smart_trucks.Base.{
  ℕ, ◌+◌, Bool, true, false, not, Option, none, some, or_default, if◌then◌else◌, List, [], ◌∷◌,
  ◌++◌,
}
use smart_trucks.Base.Int.{ℤ}
use smart_trucks.Base.Text.{Text, text_or}
use smart_trucks.Retry.{Attempt, returned, operational_error, other_error, Ended, run_with_retry}
use smart_trucks.Sync.Queue.{
  TableName, heartbeats, gps_points, edge_health, ble_scans, table_eq, Row, Store, mark_rows_sent,
  increment_attempts,
}

-- SQLITE_LOCKED_RETRY_COUNT, with its sign.
pub record RetryCount : Type 0 where
  pub is_negative : Bool
  pub count : ℕ

pub record HeartbeatColumns : Type 0 where
  pub vehicle_id : Text
  pub heartbeat_type : Text

module _ (F : Type 0) where
  pub record GpsColumns : Type 0 where
    pub vehicle_id : Text
    pub lat : Option F
    pub lon : Option F
    pub speed_kmh : Option F
    pub fix_status : Text
    pub source_device : Option Text
    pub trip_id : Option Text
    pub local_sequence : ℕ

  pub record HealthColumns : Type 0 where
    pub last_gps_fix_utc : Option Text
    pub last_upload_success_utc : Option Text
    pub queue_depth : ℤ
    pub disk_free_mb : Option F
    pub wifi_state : Option Text
    pub process_state : Option Text

  -- The columns of a row, by its table.
  pub data Columns : Type 0 where
    gps_columns : GpsColumns → Columns
    heartbeat_columns : HeartbeatColumns → Columns
    health_columns : HealthColumns → Columns
    no_columns : Columns

pub record WakeSignal : Type 0 where
  pub id : ℕ
  pub signal_type : Text
  pub created_at : Text

-- The tables of `init_db`; `AUTOINCREMENT` gives each insert an id that the table never had.
pub record Database (F P : Type 0) : Type 0 where
  pub store : Store (Columns F × P)
  pub next_id : TableName → ℕ
  pub wake_signals : List WakeSignal
  pub next_signal_id : ℕ

module _ {F P : Type 0} where
  -- One table changed.
  abbrev pub update_table : TableName → List (Row (Columns F × P)) → Database F P → Database F P
  update_table t rows db = record db { store = λ u. if table_eq t u then rows else db.store u }

  -- What a write with retries leaves: a transaction that failed is rolled back.
  abbrev pub committed : {A : Type 0} → Database F P → Database F P → Attempt A → Database F P
  committed before after (returned a) = after
  committed before after (operational_error locked) = before
  committed before after other_error = before

  -- `_execute_write_with_retry`, and the caller's `except` that logs the failure; no other writer of this
  -- database runs between the attempts.
  unfoldable pub execute_write_with_retry :
      RetryCount
      → (ℕ → Attempt (Unit {0}))
      → (Database F P → Database F P)
      → Database F P
      → Database F P
  execute_write_with_retry retries attempt change db =
      committed db (change db) (run_with_retry retries.is_negative retries.count attempt).last

  abbrev pub inserted : TableName → Text → Columns F × P → Database F P → Database F P
  inserted t captured_at columns db = record db {
    store = λ u. if table_eq t u then db.store u ++ new_row ∷ [] else db.store u;
    next_id = λ u. if table_eq t u then db.next_id u + 1 else db.next_id u;
  }
    where
      new_row : Row (Columns F × P)
      new_row = record {
        id = db.next_id t;
        captured_at_utc = captured_at;
        payload_json = columns;
        sent_at_utc = none;
        attempt_count = 0;
      }

  -- `insert_gps_point`
  unfoldable pub insert_gps_point :
      RetryCount → (ℕ → Attempt (Unit {0})) → Text → GpsColumns F → P → Database F P → Database F P
  unfolding execute_write_with_retry
  insert_gps_point retries attempt captured_at columns payload =
      execute_write_with_retry retries attempt
        (inserted gps_points captured_at (gps_columns columns, payload))

  unfoldable pub insert_heartbeat :
      RetryCount
      → (ℕ → Attempt (Unit {0}))
      → Text
      → HeartbeatColumns
      → P
      → Database F P
      → Database F P
  unfolding execute_write_with_retry
  insert_heartbeat retries attempt captured_at columns payload =
      execute_write_with_retry retries attempt
        (inserted heartbeats captured_at (heartbeat_columns columns, payload))

  -- `record_edge_health`, with the clock for a payload that has no time.
  unfoldable pub record_edge_health :
      RetryCount
      → (ℕ → Attempt (Unit {0}))
      → Text
      → Option Text
      → HealthColumns F
      → P
      → Database F P
      → Database F P
  unfolding execute_write_with_retry
  record_edge_health retries attempt now captured_at columns payload =
      execute_write_with_retry retries attempt
        (inserted edge_health (or_default captured_at now) (health_columns columns, payload))

  -- ble-sensor's `_enqueue_ble_scan`, on the same file.
  unfoldable pub enqueue_ble_scan :
      RetryCount → (ℕ → Attempt (Unit {0})) → Text → P → Database F P → Database F P
  unfolding execute_write_with_retry
  enqueue_ble_scan retries attempt captured_at payload =
      execute_write_with_retry retries attempt
        (inserted ble_scans captured_at (no_columns, payload))

  abbrev pub marked_sent : TableName → Text → List ℕ → Database F P → Database F P
  marked_sent t now ids db = update_table t (mark_rows_sent now ids (db.store t)) db

  abbrev pub bumped : TableName → List ℕ → Database F P → Database F P
  bumped t ids db = update_table t (increment_attempts ids (db.store t)) db

  -- `if not row_ids: return`
  abbrev pub with_rows : List ℕ → (Database F P → Database F P) → Database F P → Database F P
  with_rows [] write db = db
  with_rows (i ∷ ids) write db = write db

  -- `mark_gps_points_sent` and `mark_heartbeats_sent`, with the clock for no time given.
  unfoldable pub mark_sent :
      RetryCount
      → (ℕ → Attempt (Unit {0}))
      → TableName
      → Text
      → List ℕ
      → Option Text
      → Database F P
      → Database F P
  unfolding execute_write_with_retry
  mark_sent retries attempt t now ids sent_at = with_rows ids (
      execute_write_with_retry retries attempt
        (marked_sent t (text_or (or_default sent_at []) now) ids))

  -- `increment_gps_attempts` and `increment_heartbeat_attempts`
  unfoldable pub increment_tries :
      RetryCount → (ℕ → Attempt (Unit {0})) → TableName → List ℕ → Database F P → Database F P
  unfolding execute_write_with_retry
  increment_tries retries attempt t ids =
      with_rows ids (execute_write_with_retry retries attempt (bumped t ids))

  abbrev pub signalled : Text → Text → Database F P → Database F P
  signalled signal_type now db = record db {
    wake_signals =
        db.wake_signals
        ++ record { id = db.next_signal_id; signal_type = signal_type; created_at = now } ∷ [];
    next_signal_id = db.next_signal_id + 1;
  }

  unfoldable pub insert_wake_signal :
      RetryCount → (ℕ → Attempt (Unit {0})) → Text → Text → Database F P → Database F P
  unfolding execute_write_with_retry
  insert_wake_signal retries attempt signal_type now =
      execute_write_with_retry retries attempt (signalled signal_type now)
