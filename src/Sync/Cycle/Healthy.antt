-- ===== src/Sync/Cycle/Healthy.antt =====
-- sync-service/main.py: with a readable and writable database, payloads that decode and a cloud that
-- accepts, every cycle succeeds, and as many cycles as there are pending rows empty the queues.
use smart_trucks.Base.{
  ℕ, suc, ◌≤◌, Bool, true, false, is_some, List, [], ◌∷◌, ◌≡◌, refl, arith, map, length, Bool-cases,
  ◌==◌, ◌&&◌, not, inl, inr, All, if◌then◌else◌,
}
use smart_trucks.Base.Result.{Result, ok, raise, is_ok}
use smart_trucks.Sync.Queue.{
  TableName, sync_tables, sort_by, Row, Store, select_pending, row_ids, table_eq, mark_rows_sent,
}
use smart_trucks.Sync.Queue.Order.{mark_rows_sent-Distinct}
use smart_trucks.Sync.Cycle.{
  World, SyncOutcome, Item, Reply, response, is_accepted, batch_limit, item_before, ids_for,
  is_empty, decode_rows, load_pending_rows, load_tables, saturated, all_rows, write_table,
  apply_all, finish, settle, deliver, sync_cycle,
}
use smart_trucks.Sync.Cycle.Selected.{selected}
use smart_trucks.Sync.Cycle.Outcome.{sync_cycle_ok}
use smart_trucks.Sync.Cycle.Drain.{
  pending_total, KeysDistinct, BatchesPositive, sync_cycle_progress, sync_cycle_drained,
}

-- The call returned with `ok`.
abbrev pub Succeeded : Result SyncOutcome → Type 0
Succeeded (ok out) = out.is_ok ≡ true
Succeeded (raise e) = ⊥

module _ {J P : Type 0} where
  pub record IsHealthy (w : World J P) : Type 0 where
    pub batches : BatchesPositive w
    pub reads : (t : TableName) → is_ok (w.readable t) ≡ true
    pub writes : (t : TableName) → is_ok (w.writable t) ≡ true
    pub decodes : (j : J) → is_some (w.decode j) ≡ true
    pub accepts : (ps : List P) → is_accepted (w.send ps) ≡ true

  module _ (w : World J P) (h : IsHealthy w) where
    decode_rows_ok : (t : TableName) (rows : List (Row J)) → is_ok (decode_rows w t rows) ≡ true
    unfolding decode_rows
    decode_rows_ok t [] = refl
    decode_rows_ok t (r ∷ rows) = ground (arith, h.decodes r.payload_json, decode_rows_ok t rows)

    load_tables_ok : (s : Store J) (ts : List TableName) → is_ok (load_tables w s ts) ≡ true
    unfolding load_tables load_pending_rows
    load_tables_ok s [] = refl
    load_tables_ok s (t ∷ ts) = ground (
      arith,
      h.reads t,
      decode_rows_ok t (select_pending (batch_limit w t) (s t)),
      load_tables_ok s ts,
    )

    apply_all_ok :
        (op : List ℕ → List (Row J) → List (Row J)) (ts : List TableName) (items : List (Item P))
        (s : Store J)
        → is_ok (apply_all w op ts items s).1 ≡ true
    unfolding apply_all write_table
    apply_all_ok op [] items s = refl
    apply_all_ok op (t ∷ ts) items s =
        go (write_table w op t (ids_for w t items) s)
          (written (is_empty (ids_for w t items)) (w.writable t) (h.writes t))
          λ s'. apply_all_ok op ts items s'
      where
        written :
            (b : Bool) (r : Result (Unit {0}))
            → is_ok r ≡ true
            → is_ok
                (if b then (s, ok tt) else elim r as (λ _. Store J × Result (Unit {0})) [
                  | ok u ↦ (λ u. if table_eq t u then op (ids_for w t items) (s u) else s u, ok tt)
                  | raise e ↦ (s, raise e)
                ]).1
              ≡ true
        written true r e = refl
        written false (ok u) e = refl
        written false (raise x) e = cc

        go :
            (out : Store J × Result (Unit {0}))
            → is_ok out.1 ≡ true
            → ((s' : Store J) → is_ok (apply_all w op ts items s').1 ≡ true)
            → is_ok
                (elim out.1 as (λ _. Store J × Result (Unit {0})) [
                  | ok u ↦ apply_all w op ts items out.0
                  | raise e ↦ (out.0, raise e)
                ]).1
              ≡ true
        go (s', ok u) e later = later s'
        go (s', raise x) e later = cc

    finish-Succeeded :
        (out : SyncOutcome) (end : Store J × Result (Unit {0}))
        → out.is_ok ≡ true
        → is_ok end.1 ≡ true
        → Succeeded (finish w out end).1
    finish-Succeeded out (s', ok u) e k = e
    finish-Succeeded out (s', raise x) e k = cc

    settle-Succeeded :
        (s : Store J) (more : Bool) (items : List (Item P)) (reply : Reply)
        → is_accepted reply ≡ true
        → Succeeded (settle w s more items reply).1
    unfolding settle
    settle-Succeeded s more items (response code) a = rw a (
        finish-Succeeded (record { is_ok = true; sent = length items; more_pending = more })
          (apply_all w (mark_rows_sent w.now) sync_tables items s) refl
          (apply_all_ok (mark_rows_sent w.now) sync_tables items s))
    settle-Succeeded s more items Reply.transport_error a = cc
    settle-Succeeded s more items Reply.no_webhook_url a = cc

    deliver-Succeeded :
        (s : Store J) (more : Bool) (items : List (Item P)) → Succeeded (deliver w s more items).1
    unfolding deliver
    deliver-Succeeded s more [] = refl
    deliver-Succeeded s more (a ∷ items) =
        settle-Succeeded s more (a ∷ items) (w.send (map (λ c. c.payload) (a ∷ items)))
          (h.accepts _)

    -- With all in order, a cycle returns, and with success.
    sync_cycle-Succeeded : (s : Store J) → Succeeded (sync_cycle w s).1
    unfolding sync_cycle
    sync_cycle-Succeeded s = go (load_tables w s sync_tables) (load_tables_ok s sync_tables)
      where
        go :
            (loaded : Result (List (TableName × List (Item P))))
            → is_ok loaded ≡ true
            → Succeeded
                (elim loaded as (λ _. Store J × Result SyncOutcome) [
                  | raise e ↦ (s, raise e)
                  | ok l ↦ deliver w s (saturated w l) (sort_by (item_before w) (all_rows w l))
                ]).1
        go (ok l) e = deliver-Succeeded s _ _
        go (raise x) e = cc

    value_of :
        (r : Result SyncOutcome)
        → Succeeded r
        → (out : SyncOutcome) × (r ≡ ok out) × (out.is_ok ≡ true)
    value_of (ok out) e = (out, refl, e)
    value_of (raise x) e = absurd e

    sync_cycle-KeysDistinct : (s : Store J) → KeysDistinct s → KeysDistinct (sync_cycle w s).0
    sync_cycle-KeysDistinct s d t =
        let (out, e, k) = value_of (sync_cycle w s).1 (sync_cycle-Succeeded s) in
        let (n, more, rows) = sync_cycle_ok w s out e k in
        rw (rows t) (mark_rows_sent-Distinct w.now (row_ids (selected w s t)) (s t) (d t))

    -- A cycle takes at least one row off, if any is pending.
    sync_cycle_decreases :
        (s : Store J) (n : ℕ)
        → KeysDistinct s
        → pending_total s ≤ suc n
        → pending_total (sync_cycle w s).0 ≤ n
    sync_cycle_decreases s n d b =
        let (out, e, k) = value_of (sync_cycle w s).1 (sync_cycle-Succeeded s) in
        elim (Bool-cases (out.sent == 0)) [
          | inl nothing ↦ omega (
            arith,
            sync_cycle_drained w s out d h.batches e k
                (no_more out _ (sync_cycle_ok w s out e k).1 nothing),
          )
          | inr some_sent ↦
              omega (arith, sync_cycle_progress w s out d e k, positive out.sent some_sent)
        ]
      where
        positive : (m : ℕ) → (m == 0) ≡ false → 1 ≤ m
        positive m q = ground arith

        no_more :
            (out : SyncOutcome) (b : Bool)
            → out.more_pending ≡ (b && not (out.sent == 0))
            → (out.sent == 0) ≡ true
            → out.more_pending ≡ false
        no_more out b q z = ground arith

-- The cycles of a drain, each in the world of its moment.
unfoldable pub drain : {J P : Type 0} → List (World J P) → Store J → Store J
drain [] s = s
drain (w ∷ ws) s = drain ws (sync_cycle w s).0

-- With distinct ids in each table, as many cycles as there are pending rows, each with positive batch
-- sizes, a readable and writable database, payloads that decode and a cloud that accepts, leave
-- nothing pending in any of the four tables.
pub drain_empties :
    {J P : Type 0} (ws : List (World J P)) (s : Store J)
    → KeysDistinct s
    → All IsHealthy ws
    → pending_total s ≤ length ws
    → pending_total (drain ws s) ≡ 0
unfolding drain
drain_empties [] s d hs b = omega arith
drain_empties (w ∷ ws) s d (h, hs) b =
    drain_empties ws (sync_cycle w s).0 (sync_cycle-KeysDistinct w h s d) hs
      (sync_cycle_decreases w h s (length ws) d b)
