-- ===== src/Base/Sort.antt =====
-- Stable sorting by an order test, as Python's `sorted` and SQL's `ORDER BY`, and what a sort keeps.
use Prim.Native.Nat.{suc}
use mathlib.Core.Path.{◌≡◌, refl, ap, subst}
use mathlib.Core.Logic.{inl, inr}
use mathlib.Core.Bool.{Bool, true, false, ◌||◌}
use mathlib.Core.List.{List, [], ◌∷◌}
use native.Mathlib.Omega.{arith}
use smart_trucks.Base.Tests.{if◌then◌else◌, Bool-cases, if_either}
use smart_trucks.Base.Lists.{length, keep_if, any_of, All}

-- A stable sort.
module _ {ℓ} {A : Type ℓ} (before : A → A → Bool) where
  unfoldable pub insert_by : A → List A → List A
  insert_by x [] = x ∷ []
  insert_by x (y ∷ ys) = let rest = insert_by x ys in if before x y then x ∷ y ∷ ys else y ∷ rest

  unfoldable pub sort_by : List A → List A
  unfolding insert_by
  sort_by [] = []
  sort_by (x ∷ xs) = insert_by x (sort_by xs)

module _ {ℓ} {A : Type ℓ} (before : A → A → Bool) where
  length_keep-insert_by :
      (p : A → Bool) (x : A) (xs : List A)
      → length (keep_if p (insert_by before x xs)) ≡ length (keep_if p (x ∷ xs))
  unfolding insert_by
  length_keep-insert_by p x [] = refl
  length_keep-insert_by p x (y ∷ ys) = ground (arith, length_keep-insert_by p x ys)

  pub length_keep-sort_by :
      (p : A → Bool) (xs : List A) → length (keep_if p (sort_by before xs)) ≡ length (keep_if p xs)
  unfolding sort_by
  length_keep-sort_by p [] = refl
  length_keep-sort_by p (x ∷ xs) =
      ground (arith, length_keep-insert_by p x (sort_by before xs), length_keep-sort_by p xs)

  any_of-insert_by :
      (p : A → Bool) (x : A) (xs : List A) → any_of p (insert_by before x xs) ≡ (p x || any_of p xs)
  unfolding insert_by
  any_of-insert_by p x [] = refl
  any_of-insert_by p x (y ∷ ys) = ground (arith, any_of-insert_by p x ys)

  pub any_of-sort_by : (p : A → Bool) (xs : List A) → any_of p (sort_by before xs) ≡ any_of p xs
  unfolding sort_by
  any_of-sort_by p [] = refl
  any_of-sort_by p (x ∷ xs) =
      ground (arith, any_of-insert_by p x (sort_by before xs), any_of-sort_by p xs)

  length-insert_by : (x : A) (xs : List A) → length (insert_by before x xs) ≡ suc (length xs)
  unfolding insert_by
  length-insert_by x [] = refl
  length-insert_by x (y ∷ ys) = ground (arith, length-insert_by x ys)

  pub length-sort_by : (xs : List A) → length (sort_by before xs) ≡ length xs
  unfolding sort_by
  length-sort_by [] = refl
  length-sort_by (x ∷ xs) =
      ground (arith, length-insert_by x (sort_by before xs), length-sort_by xs)

-- The head of a sorted list comes before all others, where the order is total and transitive.
module _ {ℓ} {A : Type ℓ} (before : A → A → Bool) where
  abbrev pub Total : Type ℓ
  Total = (a b : A) → before a b ≡ false → before b a ≡ true

  abbrev pub Transitive : Type ℓ
  Transitive = (a b c : A) → before a b ≡ true → before b c ≡ true → before a c ≡ true

  abbrev Leads : List A → List A → Type 0
  Leads [] xs = Unit
  Leads (y ∷ ys) xs = All (λ x. before y x ≡ true) xs

  leads_more :
      Transitive
      → (a b : A) (xs : List A) → before a b ≡ true
      → All (λ x. before b x ≡ true) xs
      → All (λ x. before a x ≡ true) xs
  leads_more t a b [] h hs = tt
  leads_more t a b (x ∷ xs) h (k, hs) = (t a b x h k, leads_more t a b xs h hs)

  insert-Leads :
      Total
      → Transitive
      → ((a : A) → before a a ≡ true)
      → (x : A) (sorted xs : List A) → Leads sorted xs
      → (sorted ≡ [] → xs ≡ [])
      → Leads (insert_by before x sorted) (x ∷ xs)
  unfolding insert_by
  insert-Leads total t r x [] [] h e = (r x, tt)
  insert-Leads total t r x [] (z ∷ zs) h e = let c = e refl in absurd (cc)
  insert-Leads total t r x (y ∷ ys) xs h e = elim (Bool-cases (before x y)) [
    | inl k ↦ rw k (r x, leads_more t x y xs k h)
    | inr k ↦ rw k (total x y k, h)
  ]

  pub sort_empty : (xs : List A) → sort_by before xs ≡ [] → xs ≡ []
  sort_empty [] e = refl
  sort_empty (x ∷ xs) e = absurd (omega (arith, length-sort_by before (x ∷ xs), ap length e))

  sort_by-Leads :
      Total
      → Transitive
      → ((a : A) → before a a ≡ true)
      → (xs : List A) → Leads (sort_by before xs) xs
  unfolding sort_by
  sort_by-Leads total t r [] = tt
  sort_by-Leads total t r (x ∷ xs) =
      insert-Leads total t r x (sort_by before xs) xs (sort_by-Leads total t r xs)
        (unfold sort_by in sort_empty xs)

  -- A sorted list's head.
  pub sort_by-least :
      Total
      → Transitive
      → ((a : A) → before a a ≡ true)
      → (xs : List A) (y : A) (ys : List A) → sort_by before xs ≡ y ∷ ys
      → All (λ x. before y x ≡ true) xs
  sort_by-least total t r xs y ys e = subst (λ l. Leads l xs) e (sort_by-Leads total t r xs)

-- In order, each before all that follow.
abbrev pub Sorted {ℓ} : {A : Type ℓ} → (A → A → Bool) → List A → Type 0
Sorted before [] = Unit
Sorted before (x ∷ xs) = All (λ y. before x y ≡ true) xs × Sorted before xs

module _ {ℓ} {A : Type ℓ} (before : A → A → Bool) where
  All-insert_by :
      (P : A → Type 0) (x : A) (xs : List A) → P x → All P xs → All P (insert_by before x xs)
  unfolding insert_by
  All-insert_by P x [] h hs = (h, tt)
  All-insert_by P x (y ∷ ys) h (k, ks) =
      if_either (All P) (before x y) (λ _. (h, (k, ks))) (λ _. (k, All-insert_by P x ys h ks))

  insert_by-Sorted :
      Total before
      → Transitive before
      → (x : A) (xs : List A) → Sorted before xs
      → Sorted before (insert_by before x xs)
  unfolding insert_by
  insert_by-Sorted total t x [] h = (tt, tt)
  insert_by-Sorted total t x (y ∷ ys) (h, hs) =
      if_either (Sorted before) (before x y) (λ k. ((k, leads_more before t x y ys k h), (h, hs)))
        (λ k. (
          All-insert_by (λ z. before y z ≡ true) x ys (total x y k) h,
          insert_by-Sorted total t x ys hs,
        ))

  pub sort_by-Sorted :
      Total before → Transitive before → (xs : List A) → Sorted before (sort_by before xs)
  unfolding sort_by
  sort_by-Sorted total t [] = tt
  sort_by-Sorted total t (x ∷ xs) =
      insert_by-Sorted total t x (sort_by before xs) (sort_by-Sorted total t xs)

  -- The members that `p` picks out are alike for the order.
  abbrev pub Alike : (A → Bool) → Type ℓ
  Alike p = (x y : A) → p x ≡ true → p y ≡ true → before x y ≡ true

  keep_if-insert_by :
      (p : A → Bool)
      → Alike p
      → (x : A) (xs : List A) → keep_if p (insert_by before x xs) ≡ keep_if p (x ∷ xs)
  unfolding insert_by
  keep_if-insert_by p alike x [] = refl
  keep_if-insert_by p alike x (y ∷ ys) = ground (arith, alike x y, keep_if-insert_by p alike x ys)

  -- The sort is stable: members alike for the order stay in theirs.
  pub keep_if-sort_by :
      (p : A → Bool) → Alike p → (xs : List A) → keep_if p (sort_by before xs) ≡ keep_if p xs
  unfolding sort_by
  keep_if-sort_by p alike [] = refl
  keep_if-sort_by p alike (x ∷ xs) =
      ground (arith, keep_if-insert_by p alike x (sort_by before xs), keep_if-sort_by p alike xs)
