-- ===== src/Sync/Cycle/Drain.antt =====
-- sync-service/main.py: repeated cycles empty the queues while the cloud, the disk and the payloads
-- are in order; one payload that does not decode stops them.
use smart_trucks.Base.{
  ℕ, zero, suc, ◌+◌, ◌≤◌, ◌<◌, true, false, ◌&&◌, List, [], ◌∷◌, ◌≡◌, refl, sym, ◌∙◌, arith, length,
  take, keep_if, Bool-cases, inl, inr, ◌==◌, not,
}
use smart_trucks.Base.Result.{ok}
use smart_trucks.Sync.Queue.{
  TableName, heartbeats, gps_points, edge_health, ble_scans, sync_tables, sort_by, Row, Store,
  pending, row_before, select_pending,
}
use smart_trucks.Base.Sort.{length-sort_by}
use smart_trucks.Sync.Queue.Order.{Distinct, pending-mark_selected}
use smart_trucks.Sync.Cycle.{World, SyncOutcome, batch_limit, sync_cycle}
use smart_trucks.Sync.Cycle.Selected.{selected, total, full}
use smart_trucks.Sync.Cycle.Outcome.{sync_cycle_ok, marked}

length-take_short {ℓ} :
    {A : Type ℓ} (n : ℕ) (xs : List A) → length (take n xs) < n → length (take n xs) ≡ length xs
length-take_short zero xs h = absurd (omega arith)
length-take_short (suc n) [] h = refl
length-take_short (suc n) (x ∷ xs) h = omega (arith, length-take_short n xs)

module _ {J : Type 0} where
  abbrev pub pending_count : List (Row J) → ℕ
  pending_count rows = length (keep_if pending rows)

  abbrev pub pending_total : Store J → ℕ
  pending_total s =
      pending_count (s heartbeats)
      + pending_count (s gps_points)
      + pending_count (s edge_health)
      + pending_count (s ble_scans)

  -- The primary key of each table.
  abbrev pub KeysDistinct : Store J → Type 0
  KeysDistinct s = (t : TableName) → Distinct (s t)

  length-select_short :
      (limit : ℕ) (rows : List (Row J))
      → length (select_pending limit rows) < limit
      → length (select_pending limit rows) ≡ pending_count rows
  unfolding select_pending
  length-select_short limit rows h =
      length-take_short limit (sort_by row_before (keep_if pending rows)) h
      ∙ length-sort_by row_before (keep_if pending rows)

module _ {J P : Type 0} (w : World J P) where
  -- `minimum=1` of both batch sizes.
  abbrev pub BatchesPositive : Type 0
  BatchesPositive = (1 ≤ w.batch_size) × (1 ≤ w.ble_batch_size)

  batch_limit_pos : BatchesPositive → (t : TableName) → 1 ≤ batch_limit w t
  unfolding batch_limit
  batch_limit_pos (b, c) heartbeats = b
  batch_limit_pos (b, c) gps_points = b
  batch_limit_pos (b, c) edge_health = b
  batch_limit_pos (b, c) ble_scans = c

  pending-marked :
      (s : Store J) (t : TableName)
      → KeysDistinct s
      → pending_count (marked w s t) + length (selected w s t) ≡ pending_count (s t)
  pending-marked s t d = pending-mark_selected (batch_limit w t) w.now (s t) (d t)

  -- A successful cycle takes exactly the rows that it sent off the pending ones.
  pub sync_cycle_progress :
      (s : Store J) (out : SyncOutcome)
      → KeysDistinct s
      → (sync_cycle w s).1 ≡ ok out
      → out.is_ok ≡ true
      → pending_total (sync_cycle w s).0 + out.sent ≡ pending_total s
  sync_cycle_progress s out d e h =
      let (n, more, rows) = sync_cycle_ok w s out e h in
      rw (rows heartbeats, rows gps_points, rows edge_health, rows ble_scans)
        (omega (
          arith,
          n,
          pending-marked s heartbeats d,
          pending-marked s gps_points d,
          pending-marked s edge_health d,
          pending-marked s ble_scans d,
        ))

  not_full :
      (s : Store J)
      → full w s sync_tables ≡ false
      → (length (selected w s heartbeats) < batch_limit w heartbeats)
        × (length (selected w s gps_points) < batch_limit w gps_points)
        × (length (selected w s edge_health) < batch_limit w edge_health)
        × (length (selected w s ble_scans) < batch_limit w ble_scans)
  not_full s h = ground arith

  none_sent :
      (s : Store J)
      → BatchesPositive
      → total w s sync_tables ≡ 0
      → (length (selected w s heartbeats) < batch_limit w heartbeats)
        × (length (selected w s gps_points) < batch_limit w gps_points)
        × (length (selected w s edge_health) < batch_limit w edge_health)
        × (length (selected w s ble_scans) < batch_limit w ble_scans)
  none_sent s b h = omega (
    arith,
    batch_limit_pos b heartbeats,
    batch_limit_pos b gps_points,
    batch_limit_pos b edge_health,
    batch_limit_pos b ble_scans,
  )

  all_short :
      (s : Store J) (out : SyncOutcome)
      → BatchesPositive
      → out.sent ≡ total w s sync_tables
      → (full w s sync_tables && not (out.sent == 0)) ≡ false
      → (length (selected w s heartbeats) < batch_limit w heartbeats)
        × (length (selected w s gps_points) < batch_limit w gps_points)
        × (length (selected w s edge_health) < batch_limit w edge_health)
        × (length (selected w s ble_scans) < batch_limit w ble_scans)
  all_short s out b n h = elim (Bool-cases (full w s sync_tables)) [
    | inl f ↦ none_sent s b (sym n ∙ zero_of (out.sent) (rw f at h))
    | inr f ↦ not_full s f
  ]
    where
      zero_of : (k : ℕ) → not (k == 0) ≡ false → k ≡ 0
      zero_of k h = ground arith

  -- With distinct ids in each table and positive batch sizes, a cycle that returns with success and
  -- reports nothing more pending leaves no row pending in any table.
  pub sync_cycle_drained :
      (s : Store J) (out : SyncOutcome)
      → KeysDistinct s
      → BatchesPositive
      → (sync_cycle w s).1 ≡ ok out
      → out.is_ok ≡ true
      → out.more_pending ≡ false
      → pending_total (sync_cycle w s).0 ≡ 0
  sync_cycle_drained s out d b e h m =
      let (n, more, rows) = sync_cycle_ok w s out e h in
      let (h1, h2, h3, h4) = all_short s out b n (sym more ∙ m) in
      omega (
        arith,
        n,
        sync_cycle_progress s out d e h,
        length-select_short _ (s heartbeats) h1,
        length-select_short _ (s gps_points) h2,
        length-select_short _ (s edge_health) h3,
        length-select_short _ (s ble_scans) h4,
      )
