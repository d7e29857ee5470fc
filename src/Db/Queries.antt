-- ===== src/Db/Queries.antt =====
-- telematics-edge/db.py: the queries. `readable` says whether SQLite answered; `json.loads` is a parameter.
use smart_trucks.Base.{
  ℕ, Bool, true, false, leb, Option, none, some, if◌then◌else◌, List, [], ◌∷◌, map, take, keep_if,
  length, ◌+◌,
}
use smart_trucks.Base.Text.{Text, codes, text_eq, text_le}
use smart_trucks.Base.Sort.{sort_by}
use smart_trucks.Sync.Queue.{heartbeats, gps_points, Row, pending}
use smart_trucks.Db.{Columns, gps_columns, Database}

module _ {F P : Type 0} where
  abbrev pub is_locked_fix : Row (Columns F × P) → Bool
  is_locked_fix r = elim r.payload_json.0 [
    | gps_columns c ↦ text_eq c.fix_status (codes "locked")
    | _ ↦ false
  ]

  -- `ORDER BY CASE WHEN fix_status = 'locked' THEN 0 ELSE 1 END, captured_at_utc ASC`
  abbrev pub fix_before : Row (Columns F × P) → Row (Columns F × P) → Bool
  fix_before r s =
      if is_locked_fix r
      then (if is_locked_fix s then text_le r.captured_at_utc s.captured_at_utc else true)
      else (if is_locked_fix s then false else text_le r.captured_at_utc s.captured_at_utc)

  abbrev sequence_of : Row (Columns F × P) → ℕ
  sequence_of r = elim r.payload_json.0 [ gps_columns c ↦ c.local_sequence | _ ↦ 0 ]

  -- `get_pending_gps_points`: (id, captured_at_utc, payload_json, local_sequence); a tie keeps the table's order.
  unfoldable pub get_pending_gps_points : Bool → ℕ → Database F P → List (ℕ × Text × P × ℕ)
  get_pending_gps_points readable limit db =
      if readable
      then map (λ r. (r.id, r.captured_at_utc, r.payload_json.1, sequence_of r))
          (take limit (sort_by fix_before (keep_if pending (db.store gps_points))))
      else []

  abbrev earlier : Row (Columns F × P) → Row (Columns F × P) → Bool
  earlier r s = text_le r.captured_at_utc s.captured_at_utc

  unfoldable pub get_pending_heartbeats : Bool → ℕ → Database F P → List (ℕ × Text × P)
  get_pending_heartbeats readable limit db =
      if readable
      then map (λ r. (r.id, r.captured_at_utc, r.payload_json.1))
          (take limit (sort_by earlier (keep_if pending (db.store heartbeats))))
      else []

-- The counts of `get_db_stats`; without an answer all are -1, which `none` stands for.
pub record Stats : Type 0 where
  pub pending_gps_points : ℕ
  pub pending_heartbeats : ℕ
  pub queue_depth : ℕ
  pub gps_total : ℕ
  pub heartbeats_total : ℕ

unfoldable pub get_db_stats : {F P : Type 0} → Bool → Database F P → Option Stats
get_db_stats readable db =
    let gps = length (keep_if pending (db.store gps_points)) in
    let beats = length (keep_if pending (db.store heartbeats)) in
    if readable
    then some (record {
      pending_gps_points = gps;
      pending_heartbeats = beats;
      queue_depth = gps + beats;
      gps_total = length (db.store gps_points);
      heartbeats_total = length (db.store heartbeats);
    })
    else none

-- A row of `power_readings`.
pub record PowerReading : Type 0 where
  pub id : ℕ
  pub vehicle_id : Text
  pub occurred_at : Text
  pub payload : Text

-- `ORDER BY occurred_at DESC, id DESC`
abbrev pub newer : PowerReading → PowerReading → Bool
newer r s =
    if text_eq r.occurred_at s.occurred_at
    then leb s.id r.id
    else text_le s.occurred_at r.occurred_at

abbrev snapshot_of : {J : Type 0} → (Text → Option J) → List PowerReading → Option (Text × J)
snapshot_of loads [] = none
snapshot_of loads (r ∷ rows) = elim (loads r.payload) [
  | none ↦ none
  | some j ↦ some (r.occurred_at, j)
]

-- `get_latest_power_snapshot`: none too where the table is missing or the payload does not decode.
unfoldable pub get_latest_power_snapshot :
    {J : Type 0} → (Text → Option J) → Bool → Text → List PowerReading → Option (Text × J)
get_latest_power_snapshot loads readable vehicle rows =
    if readable
    then snapshot_of loads
        (take 1 (sort_by newer (keep_if (λ r. text_eq r.vehicle_id vehicle) rows)))
    else none
