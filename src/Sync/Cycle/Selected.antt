-- ===== src/Sync/Cycle/Selected.antt =====
-- sync-service/main.py: the ids that a cycle writes are those of the rows that it loaded, table by
-- table, whatever the order of the combined batch.
use smart_trucks.Base.{
  ℕ, ◌+◌, Bool, false, ◌||◌, ◌&&◌, ◌==◌, List, [], ◌∷◌, ◌≡◌, refl, any_of-append, ◌∙◌, arith,
  length, length-append, any_of, Bool-cases, leb, inl, inr, Option-cases,
}
use smart_trucks.Base.Result.{Result, ok, raise, OnOk, OnOk-bind, OnOk-map}
use smart_trucks.Sync.Queue.{
  TableName, heartbeats, gps_points, edge_health, ble_scans, sync_tables, table_eq, sort_by, mem,
  Row, Store, select_pending, row_ids,
}
use smart_trucks.Base.Sort.{any_of-sort_by, length-sort_by}
use smart_trucks.Sync.Cycle.{
  World, Item, batch_limit, decode_rows, load_pending_rows, load_tables, saturated, all_rows,
  item_before, ids_for,
}

module _ {J P : Type 0} (w : World J P) where
  -- The rows that the cycle loads from a table.
  abbrev pub selected : Store J → TableName → List (Row J)
  selected s t = select_pending (batch_limit w t) (s t)

  -- An item of table `t` with id `k`.
  abbrev pub is_item : TableName → ℕ → Item P → Bool
  is_item t k a = table_eq t a.table && k == a.row_id

  mem-ids_for :
      (t : TableName) (k : ℕ) (items : List (Item P))
      → mem k (ids_for w t items) ≡ any_of (is_item t k) items
  mem-ids_for t k [] = refl
  mem-ids_for t k (a ∷ items) = elim (Bool-cases (table_eq t a.table)) [
    | inl same ↦ rw (same, mem-ids_for t k items) refl
    | inr other ↦ rw (other, mem-ids_for t k items) refl
  ]

  -- What the items of one table say of the rows that they were made from.
  pub record Mirrors (u : TableName) (rows : List (Row J)) (items : List (Item P)) : Type 0 where
    pub same_length : length items ≡ length rows
    pub same_ids :
        (t : TableName) (k : ℕ)
        → any_of (is_item t k) items ≡ (table_eq t u && mem k (row_ids rows))

  Mirrors-cons :
      (u : TableName) (r : Row J) (rows : List (Row J)) (p : P) (items : List (Item P))
      → Mirrors u rows items
      → Mirrors u (r ∷ rows) (
          record { table = u; row_id = r.id; captured_at_utc = r.captured_at_utc; payload = p }
          ∷ items)
  Mirrors-cons u r rows p items h = record {
    same_length = omega (arith, h.same_length);
    same_ids = λ t k. elim (Bool-cases (table_eq t u)) [
      | inl same ↦ rw (same, h.same_ids t k, same) refl
      | inr other ↦ rw (other, h.same_ids t k, other) refl
    ];
  }

  decode_rows-Mirrors :
      (u : TableName) (rows : List (Row J)) → OnOk (Mirrors u rows) (decode_rows w u rows)
  unfolding decode_rows
  decode_rows-Mirrors u [] = record {
    same_length = refl;
    same_ids = λ t k. elim (Bool-cases (table_eq t u)) [ inl e ↦ rw e | inr e ↦ rw e ];
  }
  decode_rows-Mirrors u (r ∷ rows) = elim (Option-cases (w.decode r.payload_json)) [
    | inl bad ↦ rw (bad, decode_rows) tt
    | inr (p, e) ↦
        rw (e, decode_rows)
          (OnOk-bind (Mirrors u rows) (Mirrors u (r ∷ rows)) (decode_rows w u rows) _
            (decode_rows-Mirrors u rows) λ items h. Mirrors-cons u r rows p items h)
  ]

  load_pending_rows-Mirrors :
      (s : Store J) (u : TableName) → OnOk (Mirrors u (selected s u)) (load_pending_rows w u (s u))
  unfolding load_pending_rows
  load_pending_rows-Mirrors s u =
      OnOk-bind (λ _. Unit {0}) (Mirrors u (selected s u)) (w.readable u) _ (go (w.readable u))
        λ _ _. decode_rows-Mirrors u (selected s u)
    where
      go : (m : Result (Unit {0})) → OnOk (λ _. Unit {0}) m
      go (ok u) = tt
      go (raise e) = tt

  -- Over several tables: the ids, the number of rows, and the saturation test.
  abbrev pub wanted : Store J → TableName → ℕ → List TableName → Bool
  wanted s t k [] = false
  wanted s t k (u ∷ ts) = table_eq t u && mem k (row_ids (selected s u)) || wanted s t k ts

  abbrev pub total : Store J → List TableName → ℕ
  total s [] = 0
  total s (u ∷ ts) = length (selected s u) + total s ts

  abbrev pub full : Store J → List TableName → Bool
  full s [] = false
  full s (u ∷ ts) = leb (batch_limit w u) (length (selected s u)) || full s ts

  record MirrorsAll (s : Store J) (ts : List TableName) (loaded : List (TableName × List (Item P)))
      : Type 0 where
    count : length (all_rows w loaded) ≡ total s ts
    ids : (t : TableName) (k : ℕ) → any_of (is_item t k) (all_rows w loaded) ≡ wanted s t k ts
    more : saturated w loaded ≡ full s ts

  MirrorsAll-cons :
      (s : Store J) (u : TableName) (ts : List TableName) (items : List (Item P))
      (loaded : List (TableName × List (Item P)))
      → Mirrors u (selected s u) items
      → MirrorsAll s ts loaded
      → MirrorsAll s (u ∷ ts) ((u, items) ∷ loaded)
  unfolding all_rows saturated
  MirrorsAll-cons s u ts items loaded h k = record {
    count = omega (arith, length-append {0} items (all_rows w loaded), h.same_length, k.count);
    ids = λ t i.
        rw (any_of-append (is_item t i) items (all_rows w loaded), h.same_ids t i, k.ids t i) refl;
    more = rw (h.same_length, k.more) refl;
  }

  load_tables-MirrorsAll :
      (s : Store J) (ts : List TableName) → OnOk (MirrorsAll s ts) (load_tables w s ts)
  unfolding load_tables all_rows saturated
  load_tables-MirrorsAll s [] = record { count = refl; ids = λ t k. refl; more = refl }
  load_tables-MirrorsAll s (u ∷ ts) =
      OnOk-bind (Mirrors u (selected s u)) (MirrorsAll s (u ∷ ts)) (load_pending_rows w u (s u)) _
        (load_pending_rows-Mirrors s u)
        λ items h.
          OnOk-bind (MirrorsAll s ts) (MirrorsAll s (u ∷ ts)) (load_tables w s ts) _
            (load_tables-MirrorsAll s ts) λ loaded k. MirrorsAll-cons s u ts items loaded h k

  -- The combined batch against the rows that each table selects.
  pub record IsBatch (s : Store J) (more : Bool) (items : List (Item P)) : Type 0 where
    pub count : length items ≡ total s sync_tables
    pub ids : (t : TableName) (k : ℕ) → mem k (ids_for w t items) ≡ mem k (row_ids (selected s t))
    pub more_tables : more ≡ full s sync_tables

  wanted-sync_tables :
      (s : Store J) (t : TableName) (k : ℕ)
      → wanted s t k sync_tables ≡ mem k (row_ids (selected s t))
  wanted-sync_tables s heartbeats k = ground arith
  wanted-sync_tables s gps_points k = ground arith
  wanted-sync_tables s edge_health k = ground arith
  wanted-sync_tables s ble_scans k = ground arith

  -- What a cycle loads, sorted, is the batch of the store.
  pub load_tables-IsBatch :
      (s : Store J)
      → OnOk
          (λ loaded. IsBatch s (saturated w loaded) (sort_by (item_before w) (all_rows w loaded)))
          (load_tables w s sync_tables)
  load_tables-IsBatch s =
      OnOk-map (MirrorsAll s sync_tables) _ (load_tables w s sync_tables)
        (load_tables-MirrorsAll s sync_tables)
        λ loaded h. record {
          count = length-sort_by (item_before w) (all_rows w loaded) ∙ h.count;
          ids = λ t k.
              mem-ids_for t k (sort_by (item_before w) (all_rows w loaded))
              ∙ any_of-sort_by (item_before w) (is_item t k) (all_rows w loaded)
              ∙ h.ids t k
              ∙ wanted-sync_tables s t k;
          more_tables = h.more;
        }
