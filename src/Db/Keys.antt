-- ===== src/Db/Keys.antt =====
-- telematics-edge/db.py: the ids. Each table's are distinct and below the next one that `AUTOINCREMENT` gives.
use smart_trucks.Base.{
  ℕ, suc, ◌+◌, ◌<◌, ◌≤◌, Bool, false, List, [], ◌∷◌, ◌++◌, map, keep_if, ◌≡◌, refl, sym, ◌∙◌, ap,
  subst, arith,
}
use smart_trucks.Base.Text.{Text}
use smart_trucks.Sync.Queue.{mem, Row, row_ids, contents}
use smart_trucks.Sync.Queue.Order.{Distinct}

-- Distinct ids below `n`.
abbrev pub Keyed : ℕ → List ℕ → Type 0
Keyed n [] = Unit
Keyed n (i ∷ is) = (i < n) × (mem i is ≡ false) × Keyed n is

Keyed-mono : (m n : ℕ) (is : List ℕ) → m ≤ n → Keyed m is → Keyed n is
Keyed-mono m n [] l k = tt
Keyed-mono m n (i ∷ is) l (b, d, k) = (omega arith, d, Keyed-mono m n is l k)

mem-next : (i n : ℕ) (is : List ℕ) → i < n → mem i is ≡ false → mem i (is ++ n ∷ []) ≡ false
mem-next i n [] l h = ground arith
mem-next i n (j ∷ is) l h = ground (arith, mem-next i n is l)

Keyed-next : (n : ℕ) (is : List ℕ) → Keyed n is → Keyed (suc n) (is ++ n ∷ [])
Keyed-next n [] k = (omega arith, refl, tt)
Keyed-next n (i ∷ is) (b, d, k) = (omega arith, mem-next i n is b d, Keyed-next n is k)

module _ {J : Type 0} where
  row_ids-append : (xs ys : List (Row J)) → row_ids (xs ++ ys) ≡ row_ids xs ++ row_ids ys
  row_ids-append [] ys = refl
  row_ids-append (x ∷ xs) ys = ap (λ l. x.id ∷ l) (row_ids-append xs ys)

  pub Keyed-append_next :
      (n : ℕ) (rows : List (Row J)) (r : Row J)
      → r.id ≡ n
      → Keyed n (row_ids rows)
      → Keyed (n + 1) (row_ids (rows ++ r ∷ []))
  Keyed-append_next n rows r e k =
      rw (row_ids-append rows (r ∷ []), e)
        (Keyed-mono (suc n) (n + 1) (row_ids rows ++ n ∷ []) (omega arith)
          (Keyed-next n (row_ids rows) k))

  row_ids-contents : (rows : List (Row J)) → row_ids rows ≡ map (λ x. x.0) (contents rows)
  row_ids-contents [] = refl
  row_ids-contents (r ∷ rows) = ap (λ l. r.id ∷ l) (row_ids-contents rows)

  -- What keeps the contents keeps the ids.
  pub Keyed-contents :
      (n : ℕ) (xs ys : List (Row J))
      → contents xs ≡ contents ys
      → Keyed n (row_ids ys)
      → Keyed n (row_ids xs)
  Keyed-contents n xs ys e k =
      subst (Keyed n)
        (row_ids-contents ys
          ∙ ap (λ (c : List (ℕ × Text × J)). map (λ x. x.0) c) (sym e)
          ∙ sym (row_ids-contents xs))
        k

  mem-kept :
      (p : Row J → Bool) (i : ℕ) (rows : List (Row J))
      → mem i (row_ids rows) ≡ false
      → mem i (row_ids (keep_if p rows)) ≡ false
  mem-kept p i [] h = h
  mem-kept p i (r ∷ rows) h = ground (arith, mem-kept p i rows)

  pub Keyed-keep_if :
      (p : Row J → Bool) (n : ℕ) (rows : List (Row J))
      → Keyed n (row_ids rows)
      → Keyed n (row_ids (keep_if p rows))
  Keyed-keep_if p n [] k = tt
  Keyed-keep_if p n (r ∷ rows) (b, d, k) =
      ground (arith, mem-kept p r.id rows, Keyed-keep_if p n rows)

  pub Keyed-Distinct : (n : ℕ) (rows : List (Row J)) → Keyed n (row_ids rows) → Distinct rows
  Keyed-Distinct n [] k = tt
  Keyed-Distinct n (r ∷ rows) (b, d, k) = (d, Keyed-Distinct n rows k)
