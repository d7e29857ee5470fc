-- ===== src/Collector/Maintenance/Kept.antt =====
-- telematics-edge/main.py: a turn of the maintenance keeps what is queued.
use smart_trucks.Base.{
  ℕ, ◌+◌, ◌≤◌, Option, none, if◌then◌else◌, List, [], ◌∷◌, ◌++◌, keep_if, length, length-append,
  append-nil, append_assoc, sym, ◌≡◌, refl, ◌∙◌, ap, arith, if_either,
}
use smart_trucks.Base.Text.{Text}
use smart_trucks.Retry.{Attempt, returned, operational_error, other_error, run_with_retry}
use smart_trucks.Sync.Queue.{TableName, table_eq, heartbeats, edge_health, Row, pending}
use smart_trucks.Db.{
  Database, Columns, RetryCount, heartbeat_columns, health_columns, committed, inserted,
  execute_write_with_retry, insert_heartbeat, record_edge_health,
}
use smart_trucks.Db.Queries.{Stats, get_db_stats}
use smart_trucks.Db.Purge.{purge_old_sent_rows, purge_old_sent_rows-KeepsPending}
use smart_trucks.Collector.Maintenance.{
  Alert, Config, Answers, alerts_of, health_of, beat_columns, health_recorded, maintain,
}

module _ {J : Type 0} where
  -- What is queued in `old` is queued in `new`, with up to `n` rows more at the end.
  abbrev pub Extends : ℕ → List (Row J) → List (Row J) → Type 0
  Extends n old new =
      (extra : List (Row J)) × (keep_if pending new ≡ keep_if pending old ++ extra)
      × (length extra ≤ n)

  Extends-same : (n : ℕ) (rows : List (Row J)) → Extends n rows rows
  Extends-same n rows = ([], sym (append-nil (keep_if pending rows)), omega arith)

  keep_if-append :
      (rows : List (Row J)) (r : Row J)
      → r.sent_at_utc ≡ none
      → keep_if pending (rows ++ r ∷ []) ≡ keep_if pending rows ++ r ∷ []
  keep_if-append [] r h = rw h refl
  keep_if-append (s ∷ rows) r h = ground (arith, keep_if-append rows r)

  Extends-new :
      (rows : List (Row J)) (r : Row J) → r.sent_at_utc ≡ none → Extends 1 rows (rows ++ r ∷ [])
  Extends-new rows r h = (r ∷ [], keep_if-append rows r h, omega arith)

  Extends-trans :
      (m n : ℕ) (xs ys zs : List (Row J))
      → Extends m xs ys
      → Extends n ys zs
      → Extends (m + n) xs zs
  Extends-trans m n xs ys zs (a, e, b) (c, f, d) = (
    a ++ c,
    f ∙ ap (λ l. l ++ c) e ∙ append_assoc (keep_if pending xs) a c,
    omega (arith, length-append a c),
  )

module _ {F P : Type 0} where
  abbrev AllExtend : ℕ → Database F P → Database F P → Type 0
  AllExtend n db db' = (t : TableName) → Extends n (db.store t) (db'.store t)

  committed-AllExtend :
      (n : ℕ) (db db' : Database F P) (a : Attempt (Unit {0}))
      → AllExtend n db db'
      → AllExtend n db (committed db db' a)
  committed-AllExtend n db db' (returned x) h = h
  committed-AllExtend n db db' (operational_error locked) h = λ t. Extends-same n (db.store t)
  committed-AllExtend n db db' other_error h = λ t. Extends-same n (db.store t)

  inserted-AllExtend :
      (t : TableName) (at : Text) (c : Columns F × P) (db : Database F P)
      → AllExtend 1 db (inserted t at c db)
  inserted-AllExtend t at c db u =
      if_either (Extends 1 (db.store u)) (table_eq t u) (λ _. Extends-new (db.store u) _ refl)
        (λ _. Extends-same 1 (db.store u))

  write-AllExtend :
      (n : RetryCount) (a : ℕ → Attempt (Unit {0})) (t : TableName) (at : Text) (c : Columns F × P)
      (db : Database F P)
      → AllExtend 1 db (execute_write_with_retry n a (inserted t at c) db)
  unfolding execute_write_with_retry
  write-AllExtend n a t at c db =
      committed-AllExtend 1 db (inserted t at c db) (run_with_retry n.is_negative n.count a).last
        (inserted-AllExtend t at c db)

module _ {F P : Type 0} (encode_heartbeat : List Alert → Option Stats → Answers F → P)
    (encode_health : List Alert → Option Stats → Answers F → P) (cfg : Config) where
  abbrev beat_row : Answers F → Database F P → Columns F × P
  beat_row a db = (
    heartbeat_columns (beat_columns encode_heartbeat encode_health cfg),
    encode_heartbeat (alerts_of cfg a (get_db_stats a.stats_readable db))
        (get_db_stats a.stats_readable db) a,
  )

  abbrev health_row : Answers F → Database F P → Columns F × P
  health_row a db = (
    health_columns (
        health_of encode_heartbeat encode_health cfg a (get_db_stats a.stats_readable db)
          (alerts_of cfg a (get_db_stats a.stats_readable db))),
    encode_health (alerts_of cfg a (get_db_stats a.stats_readable db))
        (get_db_stats a.stats_readable db) a,
  )

  recorded-AllExtend :
      (a : Answers F) (db : Database F P)
      → AllExtend 2 db (health_recorded encode_heartbeat encode_health cfg a db)
  unfolding insert_heartbeat record_edge_health
  recorded-AllExtend a db t =
      let mid =
        execute_write_with_retry cfg.retries a.heartbeat_attempt
          (inserted heartbeats a.captured_at (beat_row a db)) db in
      Extends-trans 1 1 (db.store t) (mid.store t)
        ((execute_write_with_retry cfg.retries a.health_attempt
            (inserted edge_health a.captured_at (health_row a db)) mid).store
          t)
        (write-AllExtend cfg.retries a.heartbeat_attempt heartbeats a.captured_at (beat_row a db) db
          t)
        (write-AllExtend cfg.retries a.health_attempt edge_health a.captured_at (health_row a db)
          mid t)

  purged-Extends :
      (a : Answers F) (db db' : Database F P) (t : TableName)
      → Extends 2 (db.store t) (db'.store t)
      → (cutoff : Text)
      → Extends 2
          (db.store t)
          ((purge_old_sent_rows cfg.retries a.purge_attempt cutoff db').0.store t)
  purged-Extends a db db' t (extra, e, b) cutoff =
      (extra, (purge_old_sent_rows-KeepsPending cfg.retries a.purge_attempt cutoff db').0 t ∙ e, b)

  -- However SQLite answers and however full the disk is: a turn of the maintenance keeps every queued row of every
  -- table, in order, and queues at most two rows behind them in a table.
  pub maintain-Extends :
      (a : Answers F) (db : Database F P) (t : TableName)
      → Extends 2 (db.store t) ((maintain encode_heartbeat encode_health cfg a db).store t)
  unfolding maintain
  maintain-Extends a db t =
      if_either (λ (d : Database F P). Extends 2 (db.store t) (d.store t)) a.is_parked
        (λ _. Extends-same 2 (db.store t))
        λ _.
          purged-Extends a db (health_recorded encode_heartbeat encode_health cfg a db) t
            (recorded-AllExtend a db t) (if a.is_disk_low then a.cutoff_3_days else a.cutoff_7_days)
