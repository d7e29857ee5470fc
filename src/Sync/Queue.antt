-- ===== src/Sync/Queue.antt =====
-- The queue tables of the shared SQLite database and the statements that sync-service/main.py runs
-- on them. A table is its rows in any order; `ORDER BY` and Python's `sort` are insertion sorts.
pub mod Order
use smart_trucks.Base.{
  ℕ, Bool, true, false, ◌||◌, ◌==◌, not, leb, Option, none, some, is_some, if◌then◌else◌, List, [],
  ◌∷◌, keep_if, take, map, suc, ◌+◌,
}
use smart_trucks.Base.Text.{Text, text_eq, text_le}
unfoldable pub use smart_trucks.Base.Sort.{insert_by, sort_by}

-- `SYNC_TABLES`
pub data TableName : Type 0 where
  heartbeats gps_points edge_health ble_scans : TableName

abbrev pub sync_tables : List TableName
sync_tables = heartbeats ∷ gps_points ∷ edge_health ∷ ble_scans ∷ []

abbrev pub table_index : TableName → ℕ
table_index heartbeats = 0
table_index gps_points = 1
table_index edge_health = 2
table_index ble_scans = 3

abbrev pub table_eq : TableName → TableName → Bool
table_eq t u = table_index t == table_index u

-- `x in xs`, SQL's `IN`.
abbrev pub mem : ℕ → List ℕ → Bool
mem k [] = false
mem k (x ∷ xs) = k == x || mem k xs

-- The key (captured_at_utc, id), ascending.
abbrev pub key_before : Text → ℕ → Text → ℕ → Bool
key_before c i d j = if text_eq c d then leb i j else text_le c d

module _ (J : Type 0) where
  pub record Row : Type 0 where
    pub id : ℕ  -- PRIMARY KEY
    pub captured_at_utc : Text
    pub payload_json : J
    pub sent_at_utc : Option Text
    pub attempt_count : ℕ

  abbrev pub Store : Type 0
  Store = TableName → List Row

module _ {J : Type 0} where
  abbrev pub pending : Row J → Bool
  pending r = not (is_some r.sent_at_utc)

  abbrev pub row_before : Row J → Row J → Bool
  row_before r s = key_before r.captured_at_utc r.id s.captured_at_utc s.id

  -- `WHERE sent_at_utc IS NULL ORDER BY captured_at_utc ASC, id ASC LIMIT ?`
  unfoldable pub select_pending : ℕ → List (Row J) → List (Row J)
  unfolding sort_by
  select_pending limit rows = take limit (sort_by row_before (keep_if pending rows))

  -- `ORDER BY captured_at_utc DESC, id DESC LIMIT ?` over the same rows, for the priority beacon.
  unfoldable pub select_latest : ℕ → List (Row J) → List (Row J)
  unfolding sort_by
  select_latest limit rows = take limit (sort_by (λ r s. row_before s r) (keep_if pending rows))

  abbrev pub row_ids : List (Row J) → List ℕ
  row_ids rows = map (λ r. r.id) rows

  abbrev pub mark_row : Text → List ℕ → Row J → Row J
  mark_row now ids r = if mem r.id ids then record r { sent_at_utc = some now } else r

  abbrev pub bump_row : List ℕ → Row J → Row J
  bump_row ids r = if mem r.id ids then record r { attempt_count = r.attempt_count + 1 } else r

  -- `UPDATE ... SET sent_at_utc = CURRENT_TIMESTAMP WHERE id IN (...)`
  unfoldable pub mark_rows_sent : Text → List ℕ → List (Row J) → List (Row J)
  mark_rows_sent now ids rows = map (mark_row now ids) rows

  -- `UPDATE ... SET attempt_count = attempt_count + 1 WHERE id IN (...)`
  unfoldable pub increment_attempts : List ℕ → List (Row J) → List (Row J)
  increment_attempts ids rows = map (bump_row ids) rows

  -- What no step of a cycle may change.
  abbrev pub contents : List (Row J) → List (ℕ × Text × J)
  contents rows = map (λ r. (r.id, r.captured_at_utc, r.payload_json)) rows

  abbrev pub sent_marks : List (Row J) → List (Option Text)
  sent_marks rows = map (λ r. r.sent_at_utc) rows
