-- ===== src/Sync/Cycle/Poison.antt =====
-- sync-service/main.py: `_load_pending_rows` decodes a whole selection or raises, and `sync_cycle` does
-- not catch it, so one payload that is no JSON holds back the queues.
use smart_trucks.Base.{Bool, true, false, List, [], ◌∷◌, ◌≡◌, refl, arith, any_of, is_some, not}
use smart_trucks.Base.Result.{Result, ok, raise, is_ok}
use smart_trucks.Sync.Queue.{
  TableName, sync_tables, sort_by, Row, Store, heartbeats, gps_points, edge_health, ble_scans,
}
use smart_trucks.Sync.Cycle.{
  World, SyncOutcome, Item, item_before, decode_rows, load_pending_rows, load_tables, saturated,
  all_rows, deliver, sync_cycle,
}
use smart_trucks.Sync.Cycle.Selected.{selected}

module _ {J P : Type 0} (w : World J P) where
  -- A row whose `payload_json` does not decode.
  abbrev pub undecodable : Row J → Bool
  undecodable r = not (is_some (w.decode r.payload_json))

  decode_rows_poisoned :
      (t : TableName) (rows : List (Row J))
      → any_of undecodable rows ≡ true
      → is_ok (decode_rows w t rows) ≡ false
  unfolding decode_rows
  decode_rows_poisoned t [] h = cc
  decode_rows_poisoned t (r ∷ rows) h = ground (arith, decode_rows_poisoned t rows)

  load_poisoned :
      (s : Store J) (t : TableName)
      → any_of undecodable (selected w s t) ≡ true
      → is_ok (load_pending_rows w t (s t)) ≡ false
  unfolding load_pending_rows
  load_poisoned s t h = ground (arith, decode_rows_poisoned t (selected w s t) h)

  load_tables_poisoned :
      (s : Store J) (t : TableName)
      → is_ok (load_pending_rows w t (s t)) ≡ false
      → is_ok (load_tables w s sync_tables) ≡ false
  unfolding load_tables
  load_tables_poisoned s heartbeats h = ground arith
  load_tables_poisoned s gps_points h = ground arith
  load_tables_poisoned s edge_health h = ground arith
  load_tables_poisoned s ble_scans h = ground arith

  -- While a payload that does not decode stands among the selected rows of some table, a cycle raises
  -- and changes no table: no event of any table is sent, and the selection stays as it is.
  pub sync_cycle_poisoned :
      (s : Store J) (t : TableName)
      → any_of undecodable (selected w s t) ≡ true
      → ((sync_cycle w s).0 ≡ s) × (is_ok (sync_cycle w s).1 ≡ false)
  unfolding sync_cycle
  sync_cycle_poisoned s t h =
      go (load_tables w s sync_tables) (load_tables_poisoned s t (load_poisoned s t h))
    where
      go :
          (loaded : Result (List (TableName × List (Item P))))
          → is_ok loaded ≡ false
          → let end = elim loaded as (λ _. Store J × Result SyncOutcome) [
            | raise e ↦ (s, raise e)
            | ok l ↦ deliver w s (saturated w l) (sort_by (item_before w) (all_rows w l))
          ] in
            (end.0 ≡ s) × (is_ok end.1 ≡ false)
      go (ok l) e = cc
      go (raise x) e = (refl, refl)
