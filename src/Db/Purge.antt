-- ===== src/Db/Purge.antt =====
-- telematics-edge/db.py: `purge_old_sent_rows` and `pop_beacon_wake_signal`.
use smart_trucks.Base.{
  ℕ, ◌+◌, Bool, true, false, ◌&&◌, not, is_some, if◌then◌else◌, List, [], ◌∷◌, length, keep_if,
  any_of, ◌≡◌, refl, arith,
}
use smart_trucks.Base.Text.{Text, codes, text_eq, text_le}
use smart_trucks.Retry.{Attempt, returned, operational_error, other_error, run_with_retry}
use smart_trucks.Sync.Queue.{
  TableName, heartbeats, gps_points, edge_health, ble_scans, Row, pending,
}
use smart_trucks.Db.{Columns, WakeSignal, Database, RetryCount}

abbrev pub beacon_type : Text
beacon_type = codes "ble_key_beacon"

abbrev pub is_beacon : WakeSignal → Bool
is_beacon s = text_eq s.signal_type beacon_type

none-left : (l : List WakeSignal) → any_of is_beacon (keep_if (λ s. not (is_beacon s)) l) ≡ false
none-left [] = refl
none-left (s ∷ l) = ground (arith, none-left l)

module _ {F P : Type 0} where
  -- `sent_at_utc IS NOT NULL AND captured_at_utc < ?`
  abbrev pub is_old : Text → Row (Columns F × P) → Bool
  is_old cutoff r = is_some r.sent_at_utc && not (text_le cutoff r.captured_at_utc)

  abbrev pub purged : Text → Database F P → Database F P
  purged cutoff db = record db { store = λ t. keep_if (λ r. not (is_old cutoff r)) (db.store t) }

  abbrev old_count : Text → Database F P → TableName → ℕ
  old_count cutoff db t = length (keep_if (is_old cutoff) (db.store t))

  -- The sum of the four cursors' `rowcount`.
  abbrev pub deleted_total : Text → Database F P → ℕ
  deleted_total cutoff db =
      old_count cutoff db gps_points
      + old_count cutoff db heartbeats
      + old_count cutoff db edge_health
      + old_count cutoff db ble_scans

  abbrev pub purge_ended : Text → Database F P → Attempt (Unit {0}) → Database F P × ℕ
  purge_ended cutoff db (returned a) = (purged cutoff db, deleted_total cutoff db)
  purge_ended cutoff db (operational_error locked) = (db, 0)
  purge_ended cutoff db other_error = (db, 0)

  -- `purge_old_sent_rows`, with the cutoff of `days`: its loop is that of a write with retries, and a
  -- failure is logged and counts 0.
  unfoldable pub purge_old_sent_rows :
      RetryCount → (ℕ → Attempt (Unit {0})) → Text → Database F P → Database F P × ℕ
  purge_old_sent_rows retries attempt cutoff db =
      purge_ended cutoff db (run_with_retry retries.is_negative retries.count attempt).last

  -- `pop_beacon_wake_signal`, by whether the query and then the deletion went through.
  unfoldable pub pop_beacon_wake_signal : Bool → Bool → Database F P → Database F P × Bool
  pop_beacon_wake_signal readable writable db =
      if readable && any_of is_beacon db.wake_signals && writable
      then (record db { wake_signals = keep_if (λ s. not (is_beacon s)) db.wake_signals }, true)
      else (db, false)

  abbrev row_total : Database F P → ℕ
  row_total db =
      length (db.store gps_points)
      + length (db.store heartbeats)
      + length (db.store edge_health)
      + length (db.store ble_scans)

  pending-purged :
      (cutoff : Text) (rows : List (Row (Columns F × P)))
      → keep_if pending (keep_if (λ r. not (is_old cutoff r)) rows) ≡ keep_if pending rows
  pending-purged cutoff [] = refl
  pending-purged cutoff (r ∷ rows) = ground (arith, pending-purged cutoff rows)

  length-purged :
      (cutoff : Text) (rows : List (Row (Columns F × P)))
      → length (keep_if (λ r. not (is_old cutoff r)) rows) + length (keep_if (is_old cutoff) rows)
        ≡ length rows
  length-purged cutoff [] = omega arith
  length-purged cutoff (r ∷ rows) = ground (arith, length-purged cutoff rows)

  abbrev pub KeepsPending : Database F P → Database F P × ℕ → Type 0
  KeepsPending db (db', n) =
      ((t : TableName) → keep_if pending (db'.store t) ≡ keep_if pending (db.store t))
      × (row_total db' + n ≡ row_total db)

  purge_ended-KeepsPending :
      (cutoff : Text) (db : Database F P) (a : Attempt (Unit {0}))
      → KeepsPending db (purge_ended cutoff db a)
  purge_ended-KeepsPending cutoff db (returned a) = (
    λ t. pending-purged cutoff (db.store t),
    omega (
      arith,
      length-purged cutoff (db.store gps_points),
      length-purged cutoff (db.store heartbeats),
      length-purged cutoff (db.store edge_health),
      length-purged cutoff (db.store ble_scans),
    ),
  )
  purge_ended-KeepsPending cutoff db (operational_error locked) = (λ t. refl, omega arith)
  purge_ended-KeepsPending cutoff db other_error = (λ t. refl, omega arith)

  -- However SQLite answers, a purge keeps every row that is not sent yet, in each table and in order, and
  -- returns exactly the number of rows that it deleted.
  pub purge_old_sent_rows-KeepsPending :
      (retries : RetryCount) (attempt : ℕ → Attempt (Unit {0})) (cutoff : Text) (db : Database F P)
      → KeepsPending db (purge_old_sent_rows retries attempt cutoff db)
  unfolding purge_old_sent_rows
  purge_old_sent_rows-KeepsPending retries attempt cutoff db =
      purge_ended-KeepsPending cutoff db
        (run_with_retry retries.is_negative retries.count attempt).last

  -- Where SQLite reads and writes, a pop returns True exactly if a key beacon's signal is there, and the next
  -- one returns False: one signal, or many, wakes once.
  pop_beacon_wake_signal_once :
      (db : Database F P)
      → ((pop_beacon_wake_signal true true db).1 ≡ any_of is_beacon db.wake_signals)
        × ((pop_beacon_wake_signal true true (pop_beacon_wake_signal true true db).0).1 ≡ false)
  unfolding pop_beacon_wake_signal
  pop_beacon_wake_signal_once db = ground (arith, none-left db.wake_signals)
