-- ===== src/Sync/Cycle/Outcome.antt =====
-- sync-service/main.py: what `sync_cycle` does to the queues, by how it ends.
use smart_trucks.Base.{
  ℕ, Bool, true, false, ◌&&◌, List, [], ◌∷◌, ◌≡◌, refl, sym, subst, ◌∙◌, ap, arith, ◌⊎◌, inl, inr,
  map, length, Bool-cases, not, ◌==◌,
}
use smart_trucks.Base.Result.{Result, ok, raise, OnOk}
use smart_trucks.Sync.Queue.{
  TableName, sync_tables, sort_by, Row, Store, mark_rows_sent, increment_attempts, row_ids,
  contents, sent_marks,
}
use smart_trucks.Sync.Cycle.{
  World, SyncOutcome, Item, Reply, response, transport_error, no_webhook_url, accepted, is_accepted,
  refused, item_before, is_empty, ids_for, load_tables, saturated, all_rows, finish, failed, settle,
  deliver, sync_cycle,
}
use smart_trucks.Sync.Cycle.Selected.{selected, total, full, IsBatch, load_tables-IsBatch}
use smart_trucks.Sync.Cycle.Writes.{
  IsUpdate, mark_rows_sent-IsUpdate, increment_attempts-IsUpdate, Effect, apply_all-Effect,
}

and_false : (b : Bool) → false ≡ (b && false)
and_false true = refl
and_false false = refl

and_not_empty {ℓ} :
    {A : Type ℓ} (xs : List A) (b : Bool) → is_empty xs ≡ false → b ≡ (b && not (length xs == 0))
and_not_empty [] b h = cc
and_not_empty (x ∷ xs) true h = ground arith
and_not_empty (x ∷ xs) false h = refl

module _ {J P : Type 0} (w : World J P) where
  abbrev pub marked : Store J → TableName → List (Row J)
  marked s t = mark_rows_sent w.now (row_ids (selected w s t)) (s t)

  abbrev pub bumped : Store J → TableName → List (Row J)
  bumped s t = increment_attempts (row_ids (selected w s t)) (s t)

  -- The end of a cycle that returned.
  abbrev pub Ends : Store J → Store J → SyncOutcome → Type 0
  Ends s s' out =
      ((out.is_ok ≡ true)
        × (out.sent ≡ total w s sync_tables)
        × (out.more_pending ≡ (full w s sync_tables && not (out.sent == 0)))
        × ((t : TableName) → s' t ≡ marked s t))
      ⊎ ((out.is_ok ≡ false)
          × (out.sent ≡ 0)
          × (out.more_pending ≡ full w s sync_tables)
          × ((t : TableName) → (s' t ≡ s t) ⊎ (s' t ≡ bumped s t)))

  abbrev pub CycleSpec : Store J → Store J × Result SyncOutcome → Type 0
  CycleSpec s (s', ok out) = Ends s s' out
  CycleSpec s (s', raise e) =
      (t : TableName) → (s' t ≡ s t) ⊎ ((s' t ≡ bumped s t) ⊎ (s' t ≡ marked s t))

  module _ (s : Store J) (more : Bool) (items : List (Item P)) (b : IsBatch w s more items) where
    by_selection :
        (op : List ℕ → List (Row J) → List (Row J)) (u : IsUpdate op) (t : TableName)
        → op (ids_for w t items) (s t) ≡ op (row_ids (selected w s t)) (s t)
    by_selection op u t = u.by_ids _ _ (s t) (b.ids t)

    finish_marked :
        (out : Store J × Result (Unit {0}))
        → Effect w (mark_rows_sent w.now) (mark_rows_sent-IsUpdate w.now) items s out
        → is_empty items ≡ false
        → CycleSpec s
            (finish w (record { is_ok = true; sent = length items; more_pending = more }) out)
    finish_marked (s', ok _) h e = inl (
      refl,
      b.count,
      b.more_tables ∙ and_not_empty items _ e,
      λ t. h t ∙ by_selection _ (mark_rows_sent-IsUpdate w.now) t,
    )
    finish_marked (s', raise x) h e = λ t. elim (h t) [
      | inl same ↦ inl same
      | inr written ↦ inr (inr (written ∙ by_selection _ (mark_rows_sent-IsUpdate w.now) t))
    ]

    finish_bumped :
        (out : Store J × Result (Unit {0}))
        → Effect w increment_attempts increment_attempts-IsUpdate items s out
        → CycleSpec s (finish w (failed w more) out)
    finish_bumped (s', ok _) h =
        inr
          (refl, refl, b.more_tables, λ t. inr (h t ∙ by_selection _ increment_attempts-IsUpdate t))
    finish_bumped (s', raise x) h = λ t. elim (h t) [
      | inl same ↦ inl same
      | inr written ↦ inr (inl (written ∙ by_selection _ increment_attempts-IsUpdate t))
    ]

    settle-CycleSpec :
        (reply : Reply) → is_empty items ≡ false → CycleSpec s (settle w s more items reply)
    unfolding settle
    settle-CycleSpec transport_error e =
        finish_bumped _ (apply_all-Effect w increment_attempts increment_attempts-IsUpdate items s)
    settle-CycleSpec no_webhook_url e = λ t. inl refl
    settle-CycleSpec (response code) e = elim (Bool-cases (accepted code)) [
      | inl yes_ ↦ rw yes_ (
          finish_marked _
            (apply_all-Effect w (mark_rows_sent w.now) (mark_rows_sent-IsUpdate w.now) items s) e)
      | inr not_2xx ↦ elim (Bool-cases (refused code)) [
        | inl is_4xx ↦
            rw (not_2xx, is_4xx)
              (finish_bumped _
                (apply_all-Effect w increment_attempts increment_attempts-IsUpdate items s))
        | inr not_4xx ↦ rw (not_2xx, not_4xx) (inr (refl, refl, b.more_tables, λ t. inl refl))
      ]
    ]

  deliver-CycleSpec :
      (s : Store J) (more : Bool) (items : List (Item P))
      → IsBatch w s more items
      → CycleSpec s (deliver w s more items)
  unfolding deliver
  deliver-CycleSpec s more [] b = inl (
    refl,
    b.count,
    and_false (full w s sync_tables),
    λ t.
        sym ((mark_rows_sent-IsUpdate w.now).no_ids (s t))
        ∙ by_selection s more [] b _ (mark_rows_sent-IsUpdate w.now) t,
  )
  deliver-CycleSpec s more (a ∷ items) b =
      settle-CycleSpec s more (a ∷ items) b (w.send (map (λ c. c.payload) (a ∷ items))) refl

  cycle_of_load :
      (s : Store J) (loaded : Result (List (TableName × List (Item P))))
      → OnOk (λ l. IsBatch w s (saturated w l) (sort_by (item_before w) (all_rows w l))) loaded
      → CycleSpec s (elim loaded [
        | raise e ↦ (s, raise e)
        | ok l ↦ deliver w s (saturated w l) (sort_by (item_before w) (all_rows w l))
      ])
  cycle_of_load s (ok l) b = deliver-CycleSpec s _ _ b
  cycle_of_load s (raise e) b = λ t. inl refl

  sync_cycle-CycleSpec : (s : Store J) → CycleSpec s (sync_cycle w s)
  unfolding sync_cycle
  sync_cycle-CycleSpec s = cycle_of_load s (load_tables w s sync_tables) (load_tables-IsBatch w s)

  -- The end of a successful cycle.
  abbrev pub Succeeds : Store J → Store J → SyncOutcome → Type 0
  Succeeds s s' out =
      (out.sent ≡ total w s sync_tables)
      × (out.more_pending ≡ (full w s sync_tables && not (out.sent == 0)))
      × ((t : TableName) → s' t ≡ marked s t)

  Ends-ok :
      (s s' : Store J) (out : SyncOutcome) → Ends s s' out → out.is_ok ≡ true → Succeeds s s' out
  Ends-ok s s' out (inl (e, n, more, rows)) h = (n, more, rows)
  Ends-ok s s' out (inr (e, n, more, rows)) h = cc

  CycleSpec-at :
      (s : Store J) (end : Store J × Result SyncOutcome) (out : SyncOutcome)
      → CycleSpec s end
      → end.1 ≡ ok out
      → Ends s end.0 out
  CycleSpec-at s (s', ok o) out h e = subst (λ x. Ends s s' x) (cc) h
  CycleSpec-at s (s', raise x) out h e = cc

  -- A cycle that returns with `ok` has marked in each table the first pending rows up to the table's
  -- batch limit, by capture time and id, and nothing else; `sent` counts those rows, and `more_pending`
  -- says that rows were sent and that some table filled its limit.
  pub sync_cycle_ok :
      (s : Store J) (out : SyncOutcome)
      → (sync_cycle w s).1 ≡ ok out
      → out.is_ok ≡ true
      → Succeeds s (sync_cycle w s).0 out
  sync_cycle_ok s out e h = Ends-ok s _ out (CycleSpec-at s _ out (sync_cycle-CycleSpec s) e) h

  contents-mark :
      (ids : List ℕ) (rows : List (Row J))
      → contents (mark_rows_sent w.now ids rows) ≡ contents rows
  unfolding mark_rows_sent
  contents-mark ids [] = refl
  contents-mark ids (r ∷ rows) = ground (arith, contents-mark ids rows)

  contents-bump :
      (ids : List ℕ) (rows : List (Row J)) → contents (increment_attempts ids rows) ≡ contents rows
  unfolding increment_attempts
  contents-bump ids [] = refl
  contents-bump ids (r ∷ rows) = ground (arith, contents-bump ids rows)

  contents_of_CycleSpec :
      (s : Store J) (end : Store J × Result SyncOutcome)
      → CycleSpec s end
      → (t : TableName) → contents (end.0 t) ≡ contents (s t)
  contents_of_CycleSpec s (s', ok out) (inl (e, n, more, rows)) t =
      ap contents (rows t) ∙ contents-mark (row_ids (selected w s t)) (s t)
  contents_of_CycleSpec s (s', ok out) (inr (e, n, more, rows)) t = elim (rows t) [
    | inl same ↦ ap contents same
    | inr up ↦ ap contents up ∙ contents-bump (row_ids (selected w s t)) (s t)
  ]
  contents_of_CycleSpec s (s', raise x) h t = elim (h t) [
    | inl same ↦ ap contents same
    | inr (inl up) ↦ ap contents up ∙ contents-bump (row_ids (selected w s t)) (s t)
    | inr (inr m) ↦ ap contents m ∙ contents-mark (row_ids (selected w s t)) (s t)
  ]

  -- However a cycle ends, an exception in its middle included, each table holds the same rows in the
  -- same order, with their ids, capture times and payloads: no queued event is lost.
  pub sync_cycle_keeps_rows :
      (s : Store J) (t : TableName) → contents ((sync_cycle w s).0 t) ≡ contents (s t)
  sync_cycle_keeps_rows s t = contents_of_CycleSpec s (sync_cycle w s) (sync_cycle-CycleSpec s) t

  sent_marks-bump :
      (ids : List ℕ) (rows : List (Row J))
      → sent_marks (increment_attempts ids rows) ≡ sent_marks rows
  unfolding increment_attempts
  sent_marks-bump ids [] = refl
  sent_marks-bump ids (r ∷ rows) = ground (arith, sent_marks-bump ids rows)

  abbrev SentKept : Store J → Store J × Result SyncOutcome → Type 0
  SentKept s end = (t : TableName) → sent_marks (end.0 t) ≡ sent_marks (s t)

  finish_bumped-SentKept :
      (s : Store J) (more : Bool) (items : List (Item P)) (out : Store J × Result (Unit {0}))
      → Effect w increment_attempts increment_attempts-IsUpdate items s out
      → SentKept s (finish w (failed w more) out)
  finish_bumped-SentKept s more items (s', ok _) h t =
      ap sent_marks (h t) ∙ sent_marks-bump (ids_for w t items) (s t)
  finish_bumped-SentKept s more items (s', raise x) h t = elim (h t) [
    | inl same ↦ ap sent_marks same
    | inr up ↦ ap sent_marks up ∙ sent_marks-bump (ids_for w t items) (s t)
  ]

  settle-SentKept :
      (s : Store J) (more : Bool) (items : List (Item P)) (reply : Reply)
      → is_accepted reply ≡ false
      → SentKept s (settle w s more items reply)
  unfolding settle
  settle-SentKept s more items transport_error h =
      finish_bumped-SentKept s more items _
        (apply_all-Effect w increment_attempts increment_attempts-IsUpdate items s)
  settle-SentKept s more items no_webhook_url h = λ t. refl
  settle-SentKept s more items (response code) h = elim (Bool-cases (refused code)) [
    | inl is_4xx ↦
        rw (h, is_4xx)
          (finish_bumped-SentKept s more items _
            (apply_all-Effect w increment_attempts increment_attempts-IsUpdate items s))
    | inr not_4xx ↦ rw (h, not_4xx) λ t. refl
  ]

  deliver-SentKept :
      (s : Store J) (more : Bool) (items : List (Item P))
      → ((ps : List P) → is_accepted (w.send ps) ≡ false)
      → SentKept s (deliver w s more items)
  unfolding deliver
  deliver-SentKept s more [] h = λ t. refl
  deliver-SentKept s more (a ∷ items) h =
      settle-SentKept s more (a ∷ items) (w.send (map (λ c. c.payload) (a ∷ items))) (h _)

  -- Where the cloud takes no batch, by a refusal, a server error or a transport failure, a cycle marks no
  -- row of any table as sent.
  pub sync_cycle_unaccepted :
      (s : Store J) (t : TableName)
      → ((ps : List P) → is_accepted (w.send ps) ≡ false)
      → sent_marks ((sync_cycle w s).0 t) ≡ sent_marks (s t)
  unfolding sync_cycle
  sync_cycle_unaccepted s t h = go (load_tables w s sync_tables)
    where
      go :
          (loaded : Result (List (TableName × List (Item P))))
          → sent_marks (
              (elim loaded as (λ _. Store J × Result SyncOutcome) [
                | raise e ↦ (s, raise e)
                | ok l ↦ deliver w s (saturated w l) (sort_by (item_before w) (all_rows w l))
              ]).0
                t)
            ≡ sent_marks (s t)
      go (ok l) = deliver-SentKept s _ _ h t
      go (raise e) = refl
