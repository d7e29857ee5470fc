-- ===== src/Sync/Cycle/Writes.antt =====
-- sync-service/main.py: what `_apply_all` does to the tables, with and without an exception.
use smart_trucks.Base.{
  ℕ, Bool, true, false, ◌||◌, if◌then◌else◌, List, [], ◌∷◌, ◌≡◌, refl, ◌∙◌, ap, subst, arith, ◌⊎◌,
  inl, inr, Bool-cases,
}
use smart_trucks.Base.Result.{Result, ok, raise}
use smart_trucks.Base.Text.{Text}
use smart_trucks.Sync.Queue.{
  TableName, sync_tables, table_eq, mem, Row, Store, mark_rows_sent, increment_attempts,
}
use smart_trucks.Sync.Cycle.{World, Item, is_empty, write_table, apply_all, ids_for}

module _ {J : Type 0} where
  -- An update by ids looks at the membership of the ids alone.
  pub record IsUpdate (op : List ℕ → List (Row J) → List (Row J)) : Type 0 where
    pub by_ids :
        (ids ids' : List ℕ) (rows : List (Row J))
        → ((k : ℕ) → mem k ids ≡ mem k ids')
        → op ids rows ≡ op ids' rows
    pub no_ids : (rows : List (Row J)) → op [] rows ≡ rows

  mark_ext :
      (now : Text) (ids ids' : List ℕ) (rows : List (Row J))
      → ((k : ℕ) → mem k ids ≡ mem k ids')
      → mark_rows_sent now ids rows ≡ mark_rows_sent now ids' rows
  unfolding mark_rows_sent
  mark_ext now ids ids' [] h = refl
  mark_ext now ids ids' (r ∷ rows) h = rw (h r.id, mark_ext now ids ids' rows h) refl

  mark_none : (now : Text) (rows : List (Row J)) → mark_rows_sent now [] rows ≡ rows
  unfolding mark_rows_sent
  mark_none now [] = refl
  mark_none now (r ∷ rows) = ap (λ l. r ∷ l) (mark_none now rows)

  pub mark_rows_sent-IsUpdate : (now : Text) → IsUpdate (mark_rows_sent now)
  mark_rows_sent-IsUpdate now = record { by_ids = mark_ext now; no_ids = mark_none now }

  bump_ext :
      (ids ids' : List ℕ) (rows : List (Row J))
      → ((k : ℕ) → mem k ids ≡ mem k ids')
      → increment_attempts ids rows ≡ increment_attempts ids' rows
  unfolding increment_attempts
  bump_ext ids ids' [] h = refl
  bump_ext ids ids' (r ∷ rows) h = rw (h r.id, bump_ext ids ids' rows h) refl

  bump_none : (rows : List (Row J)) → increment_attempts [] rows ≡ rows
  unfolding increment_attempts
  bump_none [] = refl
  bump_none (r ∷ rows) = ap (λ l. r ∷ l) (bump_none rows)

  pub increment_attempts-IsUpdate : IsUpdate increment_attempts
  increment_attempts-IsUpdate = record { by_ids = bump_ext; no_ids = bump_none }

pub table_eq_sound : (t u : TableName) → table_eq t u ≡ true → t ≡ u
table_eq_sound t u h = ground arith

table_eq_refl : (t : TableName) → table_eq t t ≡ true
table_eq_refl t = ground arith

-- `t` stands among `ts`; no table stands there twice.
abbrev listed : TableName → List TableName → Bool
listed t [] = false
listed t (u ∷ ts) = table_eq u t || listed t ts

abbrev Once : List TableName → Type 0
Once [] = Unit
Once (u ∷ ts) = (listed u ts ≡ false) × Once ts

module _ {J P : Type 0} (w : World J P) (op : List ℕ → List (Row J) → List (Row J))
    (upd : IsUpdate op) (items : List (Item P)) where
  -- A table after the writes: untouched, or updated by its ids.
  abbrev pub IsWritten : Store J → Store J → TableName → Type 0
  IsWritten s s' t = (s' t ≡ s t) ⊎ (s' t ≡ op (ids_for w t items) (s t))

  -- Where all writes went through, every listed table is updated by its ids, and no other.
  abbrev AllWritten : List TableName → TableName → Store J → Store J × Result (Unit {0}) → Type 0
  AllWritten ts t s (s', ok _) = s' t ≡ (if listed t ts then op (ids_for w t items) (s t) else s t)
  AllWritten ts t s (s', raise e) =
      (s' t ≡ s t) ⊎ ((listed t ts ≡ true) × (s' t ≡ op (ids_for w t items) (s t)))

  no_write : (rows : List (Row J)) (ids : List ℕ) → is_empty ids ≡ true → op ids rows ≡ rows
  no_write rows [] h = upd.no_ids rows
  no_write rows (k ∷ ids) h = cc

  OneWritten : TableName → Store J → Store J × Result (Unit {0}) → Type 0
  OneWritten u s (s', ok _) =
      (t : TableName) → s' t ≡ (if table_eq u t then op (ids_for w u items) (s t) else s t)
  OneWritten u s (s', raise e) = s' ≡ s

  write_table-OneWritten :
      (u : TableName) (s : Store J) → OneWritten u s (write_table w op u (ids_for w u items) s)
  unfolding write_table OneWritten
  write_table-OneWritten u s = elim (Bool-cases (is_empty (ids_for w u items))) [
    | inl empty ↦ rw empty λ t. elim (Bool-cases (table_eq u t)) [
      | inl same ↦ rw (same, no_write (s t) (ids_for w u items) empty) refl
      | inr other ↦ rw other refl
    ]
    | inr some_ids ↦ rw some_ids (go (w.writable u))
  ]
    where
      go :
          (r : Result (Unit {0}))
          → OneWritten u s (elim r [
            | ok _ ↦ (λ t. if table_eq u t then op (ids_for w u items) (s t) else s t, ok tt)
            | raise e ↦ (s, raise e)
          ])
      go (ok _) = λ t. refl
      go (raise e) = refl

  -- The table in front is written before the rest, which does not list it again.
  AllWritten-cons_self :
      (u : TableName) (ts : List TableName) (s s' : Store J) (out : Store J × Result (Unit {0}))
      → listed u ts ≡ false
      → s' u ≡ op (ids_for w u items) (s u)
      → AllWritten ts u s' out
      → AllWritten (u ∷ ts) u s out
  AllWritten-cons_self u ts s s' (s'', ok _) o h k =
      k
      ∙ ap (λ (b : Bool). if b then op (ids_for w u items) (s' u) else s' u) o
      ∙ h
      ∙ rw (table_eq_refl u) refl
  AllWritten-cons_self u ts s s' (s'', raise e) o (h) (inl same) =
      inr (rw (table_eq_refl u) refl, same ∙ h)
  AllWritten-cons_self u ts s s' (s'', raise e) o h (inr (l, written)) = cc

  AllWritten-cons_other :
      (u t : TableName) (ts : List TableName) (s s' : Store J) (out : Store J × Result (Unit {0}))
      → table_eq u t ≡ false
      → s' t ≡ s t
      → AllWritten ts t s' out
      → AllWritten (u ∷ ts) t s out
  AllWritten-cons_other u t ts s s' (s'', ok _) o h k = rw (o) (rw h at k)
  AllWritten-cons_other u t ts s s' (s'', raise e) o h (inl same) = inl (same ∙ h)
  AllWritten-cons_other u t ts s s' (s'', raise e) o h (inr (l, written)) =
      inr (rw (o) l, rw h at written)

  AllWritten-cons :
      (u t : TableName) (ts : List TableName) (s s' : Store J) (out : Store J × Result (Unit {0}))
      → listed u ts ≡ false
      → s' t ≡ (if table_eq u t then op (ids_for w u items) (s t) else s t)
      → AllWritten ts t s' out
      → AllWritten (u ∷ ts) t s out
  AllWritten-cons u t ts s s' out o h k = elim (Bool-cases (table_eq u t)) [
    | inl same ↦
        subst
          (λ x.
            s' x ≡ op (ids_for w u items) (s x)
            → AllWritten ts x s' out
            → AllWritten (u ∷ ts) x s out)
          (table_eq_sound u t same) (AllWritten-cons_self u ts s s' out o) (rw same at h) k
    | inr other ↦ AllWritten-cons_other u t ts s s' out other (rw other at h) k
  ]

  apply_all-AllWritten :
      (ts : List TableName) (t : TableName) (s : Store J)
      → Once ts
      → AllWritten ts t s (apply_all w op ts items s)
  unfolding apply_all OneWritten
  apply_all-AllWritten [] t s o = refl
  apply_all-AllWritten (u ∷ ts) t s o =
      go (write_table w op u (ids_for w u items) s) (write_table-OneWritten u s)
        λ s'. apply_all-AllWritten ts t s' o.1
    where
      go :
          (out : Store J × Result (Unit {0}))
          → OneWritten u s out
          → ((s' : Store J) → AllWritten ts t s' (apply_all w op ts items s'))
          → AllWritten
              (u ∷ ts)
              t
              s
              (elim out.1 [ ok _ ↦ apply_all w op ts items out.0 | raise e ↦ (out.0, raise e) ])
      go (s', ok _) h later =
          AllWritten-cons u t ts s s' (apply_all w op ts items s') o.0 (h t) (later s')
      go (s', raise e) h later = inl (ap (λ f. f t) h)

  -- The four tables of a cycle.
  abbrev pub Effect : Store J → Store J × Result (Unit {0}) → Type 0
  Effect s (s', ok _) = (t : TableName) → s' t ≡ op (ids_for w t items) (s t)
  Effect s (s', raise e) = (t : TableName) → IsWritten s s' t

  all_listed : (t : TableName) → listed t sync_tables ≡ true
  all_listed t = ground arith

  Effect_of :
      (s : Store J) (out : Store J × Result (Unit {0}))
      → ((t : TableName) → AllWritten sync_tables t s out)
      → Effect s out
  Effect_of s (s', ok _) h = λ t. h t ∙ rw (all_listed t) refl
  Effect_of s (s', raise e) h = λ t. elim (h t) [ inl same ↦ inl same | inr (l, e) ↦ inr e ]

  pub apply_all-Effect : (s : Store J) → Effect s (apply_all w op sync_tables items s)
  apply_all-Effect s =
      Effect_of s _ λ t. apply_all-AllWritten sync_tables t s (refl, (refl, (refl, (refl, tt))))
