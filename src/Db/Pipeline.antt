-- ===== src/Db/Pipeline.antt =====
-- telematics-edge/db.py with sync-service/main.py on the same file: the collector's writes, the purge, the pop and
-- the sync cycles, in any order.
use smart_trucks.Base.{
  ℕ, ◌≤◌, Bool, true, ◌&&◌, Option, or_default, subst, sym, List, [], ◌∷◌, length, All, ◌≡◌, refl,
  arith, Bool-cases, inl, inr, if_either, ap, not, any_of,
}
use smart_trucks.Base.Text.{Text, text_or}
use smart_trucks.Retry.{Attempt, returned, operational_error, other_error, run_with_retry}
use smart_trucks.Sync.Queue.{TableName, table_eq, Row, row_ids, mark_rows_sent, increment_attempts}
use smart_trucks.Sync.Cycle.{World, sync_cycle}
use smart_trucks.Sync.Cycle.Writes.{table_eq_sound}
use smart_trucks.Sync.Cycle.Outcome.{sync_cycle_keeps_rows}
use smart_trucks.Sync.Cycle.Drain.{pending_total}
use smart_trucks.Sync.Cycle.Healthy.{IsHealthy, drain, drain_empties}
use smart_trucks.Db.{
  RetryCount, GpsColumns, HeartbeatColumns, HealthColumns, Columns, gps_columns, heartbeat_columns,
  health_columns, no_columns, Database, committed, update_table, inserted, execute_write_with_retry,
  insert_gps_point, insert_heartbeat, record_edge_health, enqueue_ble_scan, mark_sent,
  increment_tries, with_rows, marked_sent, bumped, signalled, insert_wake_signal,
}
use smart_trucks.Db.Purge.{
  is_old, is_beacon, purge_ended, purge_old_sent_rows, pop_beacon_wake_signal,
}
use smart_trucks.Db.Keys.{Keyed, Keyed-append_next, Keyed-contents, Keyed-keep_if, Keyed-Distinct}

row_ids-mark :
    {J : Type 0} (now : Text) (ids : List ℕ) (rows : List (Row J))
    → row_ids (mark_rows_sent now ids rows) ≡ row_ids rows
unfolding mark_rows_sent
row_ids-mark now ids [] = refl
row_ids-mark now ids (r ∷ rows) = ground (arith, row_ids-mark now ids rows)

row_ids-bump :
    {J : Type 0} (ids : List ℕ) (rows : List (Row J))
    → row_ids (increment_attempts ids rows) ≡ row_ids rows
unfolding increment_attempts
row_ids-bump ids [] = refl
row_ids-bump ids (r ∷ rows) = ground (arith, row_ids-bump ids rows)

module _ {F P : Type 0} where
  -- A service's step on the database.
  pub data Step : Database F P → Database F P → Type 1 where
    point_inserted :
        {db : Database F P} (n : RetryCount) (a : ℕ → Attempt (Unit {0})) (at : Text)
        (c : GpsColumns F) (p : P)
        → Step db (insert_gps_point n a at c p db)
    heartbeat_inserted :
        {db : Database F P} (n : RetryCount) (a : ℕ → Attempt (Unit {0})) (at : Text)
        (c : HeartbeatColumns) (p : P)
        → Step db (insert_heartbeat n a at c p db)
    health_recorded :
        {db : Database F P} (n : RetryCount) (a : ℕ → Attempt (Unit {0})) (now : Text)
        (at : Option Text) (c : HealthColumns F) (p : P)
        → Step db (record_edge_health n a now at c p db)
    scan_enqueued :
        {db : Database F P} (n : RetryCount) (a : ℕ → Attempt (Unit {0})) (at : Text) (p : P)
        → Step db (enqueue_ble_scan n a at p db)
    sent_marked :
        {db : Database F P} (n : RetryCount) (a : ℕ → Attempt (Unit {0})) (t : TableName)
        (now : Text) (ids : List ℕ) (at : Option Text)
        → Step db (mark_sent n a t now ids at db)
    tries_counted :
        {db : Database F P} (n : RetryCount) (a : ℕ → Attempt (Unit {0})) (t : TableName)
        (ids : List ℕ)
        → Step db (increment_tries n a t ids db)
    signal_inserted :
        {db : Database F P} (n : RetryCount) (a : ℕ → Attempt (Unit {0})) (kind now : Text)
        → Step db (insert_wake_signal n a kind now db)
    signal_popped :
        {db : Database F P} (readable writable : Bool)
        → Step db (pop_beacon_wake_signal readable writable db).0
    rows_purged :
        {db : Database F P} (n : RetryCount) (a : ℕ → Attempt (Unit {0})) (cutoff : Text)
        → Step db (purge_old_sent_rows n a cutoff db).0
    cycle_run :
        {db : Database F P} {Q : Type 0} (w : World (Columns F × P) Q)
        → Step db (record db { store = (sync_cycle w db.store).0 })

  -- The databases that the services reach from a new one.
  pub data Reached : Database F P → Type 1 where
    created :
        Reached
          (record { store = λ t. []; next_id = λ t. 1; wake_signals = []; next_signal_id = 1 })
    stepped : {db db' : Database F P} → Reached db → Step db db' → Reached db'

  abbrev pub WellKeyed : Database F P → Type 0
  WellKeyed db = (t : TableName) → Keyed (db.next_id t) (row_ids (db.store t))

  committed-WellKeyed :
      (db db' : Database F P) (a : Attempt (Unit {0}))
      → WellKeyed db
      → WellKeyed db'
      → WellKeyed (committed db db' a)
  committed-WellKeyed db db' (returned a) k k' = k'
  committed-WellKeyed db db' (operational_error locked) k k' = k
  committed-WellKeyed db db' other_error k k' = k

  write-WellKeyed :
      (n : RetryCount) (a : ℕ → Attempt (Unit {0})) (change : Database F P → Database F P)
      (db : Database F P)
      → WellKeyed db
      → WellKeyed (change db)
      → WellKeyed (execute_write_with_retry n a change db)
  unfolding execute_write_with_retry
  write-WellKeyed n a change db k k' =
      committed-WellKeyed db (change db) (run_with_retry n.is_negative n.count a).last k k'

  inserted-WellKeyed :
      (t : TableName) (at : Text) (c : Columns F × P) (db : Database F P)
      → WellKeyed db
      → WellKeyed (inserted t at c db)
  inserted-WellKeyed t at c db k u = elim (Bool-cases (table_eq t u)) [
    | inl e ↦ rw e (Keyed-append_next (db.next_id u) (db.store u) _ (same e) (k u))
    | inr e ↦ rw e (k u)
  ]
    where
      same : table_eq t u ≡ true → db.next_id t ≡ db.next_id u
      same e = ap db.next_id (table_eq_sound t u e)

  updated-WellKeyed :
      (t : TableName) (rows : List (Row (Columns F × P))) (db : Database F P)
      → WellKeyed db
      → row_ids rows ≡ row_ids (db.store t)
      → WellKeyed (update_table t rows db)
  updated-WellKeyed t rows db k e u = elim (Bool-cases (table_eq t u)) [
    | inl same ↦
        rw (same, e)
          (subst (λ v. Keyed (db.next_id u) (row_ids (db.store v))) (sym (table_eq_sound t u same))
            (k u))
    | inr other ↦ rw other (k u)
  ]

  with_rows-WellKeyed :
      (ids : List ℕ) (write : Database F P → Database F P) (db : Database F P)
      → WellKeyed db
      → WellKeyed (write db)
      → WellKeyed (with_rows ids write db)
  with_rows-WellKeyed [] write db k k' = k
  with_rows-WellKeyed (i ∷ ids) write db k k' = k'

  purge_ended-WellKeyed :
      (cutoff : Text) (db : Database F P) (a : Attempt (Unit {0}))
      → WellKeyed db
      → WellKeyed (purge_ended cutoff db a).0
  purge_ended-WellKeyed cutoff db (returned a) k =
      λ t. Keyed-keep_if (λ r. not (is_old cutoff r)) (db.next_id t) (db.store t) (k t)
  purge_ended-WellKeyed cutoff db (operational_error locked) k = k
  purge_ended-WellKeyed cutoff db other_error k = k

  insert-WellKeyed :
      (n : RetryCount) (a : ℕ → Attempt (Unit {0})) (t : TableName) (at : Text) (c : Columns F × P)
      (db : Database F P)
      → WellKeyed db
      → WellKeyed (execute_write_with_retry n a (inserted t at c) db)
  insert-WellKeyed n a t at c db k =
      write-WellKeyed n a (inserted t at c) db k (inserted-WellKeyed t at c db k)

  mark-WellKeyed :
      (n : RetryCount) (a : ℕ → Attempt (Unit {0})) (t : TableName) (now : Text) (ids : List ℕ)
      (db : Database F P)
      → WellKeyed db
      → WellKeyed (with_rows ids (execute_write_with_retry n a (marked_sent t now ids)) db)
  mark-WellKeyed n a t now ids db k =
      with_rows-WellKeyed ids (execute_write_with_retry n a (marked_sent t now ids)) db k (
        write-WellKeyed n a (marked_sent t now ids) db k (
          updated-WellKeyed t (mark_rows_sent now ids (db.store t)) db k
            (row_ids-mark now ids (db.store t))))

  bump-WellKeyed :
      (n : RetryCount) (a : ℕ → Attempt (Unit {0})) (t : TableName) (ids : List ℕ)
      (db : Database F P)
      → WellKeyed db
      → WellKeyed (with_rows ids (execute_write_with_retry n a (bumped t ids)) db)
  bump-WellKeyed n a t ids db k =
      with_rows-WellKeyed ids (execute_write_with_retry n a (bumped t ids)) db k (
        write-WellKeyed n a (bumped t ids) db k (
          updated-WellKeyed t (increment_attempts ids (db.store t)) db k
            (row_ids-bump ids (db.store t))))

  popped-WellKeyed :
      (readable writable : Bool) (db : Database F P)
      → WellKeyed db
      → WellKeyed (pop_beacon_wake_signal readable writable db).0
  unfolding pop_beacon_wake_signal
  popped-WellKeyed readable writable db k =
      if_either (λ (r : Database F P × Bool). WellKeyed r.0)
        (readable && any_of is_beacon db.wake_signals && writable) (λ _. k) (λ _. k)

  Step-WellKeyed : {db db' : Database F P} → Step db db' → WellKeyed db → WellKeyed db'
  unfolding insert_gps_point insert_heartbeat record_edge_health enqueue_ble_scan mark_sent
      increment_tries insert_wake_signal purge_old_sent_rows
  Step-WellKeyed (point_inserted {db} n a at c p) k =
      insert-WellKeyed n a TableName.gps_points at (gps_columns c, p) db k
  Step-WellKeyed (heartbeat_inserted {db} n a at c p) k =
      insert-WellKeyed n a TableName.heartbeats at (heartbeat_columns c, p) db k
  Step-WellKeyed (health_recorded {db} n a now at c p) k =
      insert-WellKeyed n a TableName.edge_health (or_default at now) (health_columns c, p) db k
  Step-WellKeyed (scan_enqueued {db} n a at p) k =
      insert-WellKeyed n a TableName.ble_scans at (no_columns, p) db k
  Step-WellKeyed (sent_marked {db} n a t now ids at) k =
      mark-WellKeyed n a t (text_or (or_default at []) now) ids db k
  Step-WellKeyed (tries_counted {db} n a t ids) k = bump-WellKeyed n a t ids db k
  Step-WellKeyed (signal_inserted {db} n a kind now) k =
      write-WellKeyed n a (signalled kind now) db k k
  Step-WellKeyed (signal_popped {db} readable writable) k = popped-WellKeyed readable writable db k
  Step-WellKeyed (rows_purged {db} n a cutoff) k =
      purge_ended-WellKeyed cutoff db (run_with_retry n.is_negative n.count a).last k
  Step-WellKeyed (cycle_run {db} w) k =
      λ t. Keyed-contents (db.next_id t) _ (db.store t) (sync_cycle_keeps_rows w db.store t) (k t)

  -- Whatever the services do, in any order and with any answers of SQLite and the cloud: in every table the ids
  -- are distinct and below the next one.
  Reached-WellKeyed : {db : Database F P} → Reached db → WellKeyed db
  Reached-WellKeyed created = λ t. tt
  Reached-WellKeyed (stepped r s) = Step-WellKeyed s (Reached-WellKeyed r)

  -- From any database that the services reach: as many sync cycles as there are pending rows, with the cloud,
  -- the disk and the payloads in order, leave none pending.
  pub Reached-drain :
      {Q : Type 0} {db : Database F P} (ws : List (World (Columns F × P) Q))
      → Reached db
      → All IsHealthy ws
      → pending_total db.store ≤ length ws
      → pending_total (drain ws db.store) ≡ 0
  Reached-drain {Q} {db} ws r h b =
      drain_empties ws db.store
        (λ t. Keyed-Distinct (db.next_id t) (db.store t) (Reached-WellKeyed r t)) h b
