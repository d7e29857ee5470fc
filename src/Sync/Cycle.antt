-- ===== src/Sync/Cycle.antt =====
-- sync-service/main.py: one drain cycle, `sync_cycle`, with the calls it makes. SQLite, JSON and the
-- HTTP client are the fields of a `World`.
pub mod Selected
pub mod Writes
pub mod Outcome
pub mod Drain
pub mod Healthy
pub mod Poison
use smart_trucks.Base.{
  ℕ, Bool, true, false, ◌||◌, ◌&&◌, ltb, leb, Option, none, some, if◌then◌else◌, List, [], ◌∷◌,
  ◌++◌, keep_if, map, length,
}
use smart_trucks.Base.Text.{Text}
use smart_trucks.Base.Result.{Result, ok, raise, runtime_error, value_error, ◌>>=◌}
use smart_trucks.Sync.Queue.{
  TableName, heartbeats, gps_points, edge_health, ble_scans, sync_tables, table_eq, sort_by, Row,
  Store, key_before, select_pending, select_latest, mark_rows_sent, increment_attempts,
}

-- `_send_events`: a response's status, a transport failure, or no `WEBHOOK_URL`.
pub data Reply : Type 0 where
  response : ℕ → Reply
  transport_error : Reply
  no_webhook_url : Reply

pub record SyncOutcome : Type 0 where
  pub is_ok : Bool
  pub sent : ℕ
  pub more_pending : Bool

-- The settings, and what the libraries and the cloud answer in one cycle. `writable` is the end of
-- `run_with_retry` for a table's update.
pub record World (J P : Type 0) : Type 0 where
  pub batch_size : ℕ  -- SYNC_BATCH_SIZE
  pub ble_batch_size : ℕ  -- SYNC_BLE_BATCH_SIZE
  pub readable : TableName → Result (Unit {0})
  pub writable : TableName → Result (Unit {0})
  pub decode : J → Option P  -- `json.loads`, `none` where it raises
  pub send : List P → Reply
  pub now : Text

-- One row of `all_rows`: (table_name, row_id, captured_at_utc, payload).
pub record Item (P : Type 0) : Type 0 where
  pub table : TableName
  pub row_id : ℕ
  pub captured_at_utc : Text
  pub payload : P

-- `200 <= status_code < 300`
abbrev pub accepted : ℕ → Bool
accepted code = leb 200 code && ltb code 300

-- `400 <= status_code < 500`
abbrev pub refused : ℕ → Bool
refused code = leb 400 code && ltb code 500

-- The cloud took the events.
abbrev pub is_accepted : Reply → Bool
is_accepted (response code) = accepted code
is_accepted transport_error = false
is_accepted no_webhook_url = false

abbrev pub is_empty {ℓ} : {A : Type ℓ} → List A → Bool
is_empty [] = true
is_empty (x ∷ xs) = false

module _ {J P : Type 0} (w : World J P) where
  -- `_batch_limit`
  unfoldable pub batch_limit : TableName → ℕ
  batch_limit heartbeats = w.batch_size
  batch_limit gps_points = w.batch_size
  batch_limit edge_health = w.batch_size
  batch_limit ble_scans = w.ble_batch_size

  -- The comprehension of `_load_pending_rows`: one undecodable payload raises for the whole table.
  unfoldable pub decode_rows : TableName → List (Row J) → Result (List (Item P))
  decode_rows t [] = ok []
  decode_rows t (r ∷ rows) =
      let rest = decode_rows t rows in
      elim (w.decode r.payload_json) [
        | none ↦ raise value_error
        | some p ↦ rest >>= λ items. ok (
            record { table = t; row_id = r.id; captured_at_utc = r.captured_at_utc; payload = p }
            ∷ items)
      ]

  unfoldable pub load_pending_rows : TableName → List (Row J) → Result (List (Item P))
  unfolding decode_rows
  load_pending_rows t rows =
      w.readable t >>= λ _. decode_rows t (select_pending (batch_limit t) rows)

  -- The dictionary `pending`, in the order of the tables.
  unfoldable pub load_tables : Store J → List TableName → Result (List (TableName × List (Item P)))
  load_tables s [] = ok []
  load_tables s (t ∷ ts) =
      let rest = load_tables s ts in
      load_pending_rows t (s t) >>= λ items. rest >>= λ more. ok ((t, items) ∷ more)

  -- `any(len(rows) >= _batch_limit(table) ...)`
  unfoldable pub saturated : List (TableName × List (Item P)) → Bool
  saturated [] = false
  saturated ((t, items) ∷ rest) = leb (batch_limit t) (length items) || saturated rest

  -- The two loops that fill `all_rows`.
  unfoldable pub all_rows : List (TableName × List (Item P)) → List (Item P)
  all_rows [] = []
  all_rows ((t, items) ∷ rest) = items ++ all_rows rest

  abbrev pub item_before : Item P → Item P → Bool
  item_before a b = key_before a.captured_at_utc a.row_id b.captured_at_utc b.row_id

  -- `ids_by_table[t]`
  abbrev pub ids_for : TableName → List (Item P) → List ℕ
  ids_for t items = map (λ a. a.row_id) (keep_if (λ a. table_eq t a.table) items)

  -- One call of the per-table write; an empty list of ids touches nothing, the database included.
  unfoldable pub write_table :
      (List ℕ → List (Row J) → List (Row J))
      → TableName
      → List ℕ
      → Store J
      → Store J × Result (Unit {0})
  write_table op t ids s = if is_empty ids then (s, ok tt) else elim (w.writable t) [
    | ok u ↦ (λ u. if table_eq t u then op ids (s u) else s u, ok tt)
    | raise e ↦ (s, raise e)
  ]

  -- `_apply_all`: the tables in turn; an exception leaves the earlier tables written.
  unfoldable pub apply_all :
      (List ℕ → List (Row J) → List (Row J))
      → List TableName
      → List (Item P)
      → Store J
      → Store J × Result (Unit {0})
  unfolding write_table
  apply_all op [] items s = (s, ok tt)
  apply_all op (t ∷ ts) items s =
      let (s', done) = write_table op t (ids_for t items) s in
      elim done [ ok u ↦ apply_all op ts items s' | raise e ↦ (s', raise e) ]

  -- The outcome behind a write that may raise.
  abbrev pub finish : SyncOutcome → Store J × Result (Unit {0}) → Store J × Result SyncOutcome
  finish out (s, ok u) = (s, ok out)
  finish out (s, raise e) = (s, raise e)

  abbrev pub failed : Bool → SyncOutcome
  failed more = record { is_ok = false; sent = 0; more_pending = more }

  -- The `try`, and the ladder of status codes.
  unfoldable pub settle : Store J → Bool → List (Item P) → Reply → Store J × Result SyncOutcome
  unfolding apply_all
  settle s more items transport_error =
      finish (failed more) (apply_all increment_attempts sync_tables items s)
  settle s more items no_webhook_url = (s, raise runtime_error)
  settle s more items (response code) =
      if accepted code
      then finish (record { is_ok = true; sent = length items; more_pending = more })
          (apply_all (mark_rows_sent w.now) sync_tables items s)
      else if refused code
      then finish (failed more) (apply_all increment_attempts sync_tables items s)
      else (s, ok (failed more))

  -- `if not all_rows`, and the send.
  unfoldable pub deliver : Store J → Bool → List (Item P) → Store J × Result SyncOutcome
  unfolding settle
  deliver s more [] = (s, ok (record { is_ok = true; sent = 0; more_pending = false }))
  deliver s more (a ∷ items) = settle s more (a ∷ items) (w.send (map (λ b. b.payload) (a ∷ items)))

  unfoldable pub sync_cycle : Store J → Store J × Result SyncOutcome
  unfolding deliver
  sync_cycle s = elim (load_tables s sync_tables) [
    | raise e ↦ (s, raise e)
    | ok loaded ↦ deliver s (saturated loaded) (sort_by item_before (all_rows loaded))
  ]
