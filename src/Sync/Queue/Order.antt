-- ===== src/Sync/Queue/Order.antt =====
-- The sort and the selection of pending rows: what they keep, and what is left pending.
use smart_trucks.Base.{
  ℕ, zero, suc, ◌+◌, Bool, false, ◌||◌, ◌==◌, not, List, [], ◌∷◌, ◌≡◌, refl, arith, ◌∙◌, length,
  take, keep_if,
}
use smart_trucks.Base.Text.{Text}
use smart_trucks.Base.Sort.{length-sort_by, length_keep-sort_by}
use smart_trucks.Sync.Queue.{
  insert_by, sort_by, mem, Row, pending, row_before, select_pending, row_ids, mark_rows_sent,
}

module _ {J : Type 0} where
  -- No two rows share an id, as the primary key ensures.
  abbrev pub Distinct : List (Row J) → Type 0
  Distinct [] = Unit
  Distinct (r ∷ rows) = (mem r.id (row_ids rows) ≡ false) × Distinct rows

  mem-insert_by :
      (k : ℕ) (r : Row J) (rows : List (Row J))
      → mem k (row_ids (insert_by row_before r rows)) ≡ (k == r.id || mem k (row_ids rows))
  unfolding insert_by
  mem-insert_by k r [] = refl
  mem-insert_by k r (s ∷ rows) = ground (arith, mem-insert_by k r rows)

  mem-sort_by :
      (k : ℕ) (rows : List (Row J))
      → mem k (row_ids (sort_by row_before rows)) ≡ mem k (row_ids rows)
  unfolding sort_by
  mem-sort_by k [] = refl
  mem-sort_by k (r ∷ rows) =
      ground (arith, mem-insert_by k r (sort_by row_before rows), mem-sort_by k rows)

  insert_by-Distinct :
      (r : Row J) (rows : List (Row J))
      → mem r.id (row_ids rows) ≡ false
      → Distinct rows
      → Distinct (insert_by row_before r rows)
  unfolding insert_by
  insert_by-Distinct r [] h d = (refl, tt)
  insert_by-Distinct r (s ∷ rows) h d =
      ground (arith, mem-insert_by s.id r rows, insert_by-Distinct r rows)

  sort_by-Distinct : (rows : List (Row J)) → Distinct rows → Distinct (sort_by row_before rows)
  unfolding sort_by
  sort_by-Distinct [] d = tt
  sort_by-Distinct (r ∷ rows) d =
      insert_by-Distinct r (sort_by row_before rows) (mem-sort_by r.id rows ∙ d.0)
        (sort_by-Distinct rows d.1)

  mem-keep_if :
      (p : Row J → Bool) (k : ℕ) (rows : List (Row J))
      → mem k (row_ids rows) ≡ false
      → mem k (row_ids (keep_if p rows)) ≡ false
  mem-keep_if p k [] h = refl
  mem-keep_if p k (r ∷ rows) h = ground (arith, mem-keep_if p k rows)

  keep_if-Distinct :
      (p : Row J → Bool) (rows : List (Row J)) → Distinct rows → Distinct (keep_if p rows)
  keep_if-Distinct p [] d = tt
  keep_if-Distinct p (r ∷ rows) d = ground (arith, mem-keep_if p r.id rows, keep_if-Distinct p rows)

  abbrev outside : List ℕ → Row J → Bool
  outside ids r = not (mem r.id ids)

  outside_cons :
      (k : ℕ) (ids : List ℕ) (rows : List (Row J))
      → mem k (row_ids rows) ≡ false
      → length (keep_if (outside (k ∷ ids)) rows) ≡ length (keep_if (outside ids) rows)
  outside_cons k ids [] h = refl
  outside_cons k ids (r ∷ rows) h = ground (arith, outside_cons k ids rows)

  -- What a selection of `n` leaves of a list of distinct rows.
  length-outside-take :
      (n : ℕ) (rows : List (Row J))
      → Distinct rows
      → length (keep_if (outside (row_ids (take n rows))) rows) + length (take n rows) ≡ length rows
  length-outside-take zero [] d = omega arith
  length-outside-take zero (r ∷ rows) d = omega (arith, length-outside-take zero rows d.1)
  length-outside-take (suc n) [] d = omega arith
  length-outside-take (suc n) (r ∷ rows) d =
      ground
        (arith, outside_cons r.id (row_ids (take n rows)) rows d.0, length-outside-take n rows d.1)

  -- Marking acts on the pending rows as a filter by the ids.
  pending_mark_rows :
      (now : Text) (ids : List ℕ) (rows : List (Row J))
      → length (keep_if pending (mark_rows_sent now ids rows))
        ≡ length (keep_if (outside ids) (keep_if pending rows))
  unfolding mark_rows_sent
  pending_mark_rows now ids [] = refl
  pending_mark_rows now ids (r ∷ rows) = ground (arith, pending_mark_rows now ids rows)

  -- Marking the selection of `limit` rows takes exactly that many off the pending rows.
  pub pending-mark_selected :
      (limit : ℕ) (now : Text) (rows : List (Row J))
      → Distinct rows
      → length (keep_if pending (mark_rows_sent now (row_ids (select_pending limit rows)) rows))
          + length (select_pending limit rows)
        ≡ length (keep_if pending rows)
  unfolding select_pending
  pending-mark_selected limit now rows d =
      let sorted = sort_by row_before (keep_if pending rows) in
      let chosen = row_ids (take limit sorted) in
      omega (
        arith,
        pending_mark_rows now chosen rows,
        length_keep-sort_by row_before (outside chosen) (keep_if pending rows),
        length-outside-take limit sorted (sort_by-Distinct _ (keep_if-Distinct pending rows d)),
        length-sort_by row_before (keep_if pending rows),
      )

  mark_rows_sent-ids :
      (now : Text) (ids : List ℕ) (rows : List (Row J))
      → row_ids (mark_rows_sent now ids rows) ≡ row_ids rows
  unfolding mark_rows_sent
  mark_rows_sent-ids now ids [] = refl
  mark_rows_sent-ids now ids (r ∷ rows) = ground (arith, mark_rows_sent-ids now ids rows)

  pub mark_rows_sent-Distinct :
      (now : Text) (ids : List ℕ) (rows : List (Row J))
      → Distinct rows
      → Distinct (mark_rows_sent now ids rows)
  unfolding mark_rows_sent
  mark_rows_sent-Distinct now ids [] d = tt
  mark_rows_sent-Distinct now ids (r ∷ rows) d =
      ground (arith, mark_rows_sent-ids now ids rows, mark_rows_sent-Distinct now ids rows)
