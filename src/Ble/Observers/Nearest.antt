-- ===== src/Ble/Observers/Nearest.antt =====
-- ble-sensor/main.py: `_rank_observers` names an observer with the greatest median, and counts those heard.
use smart_trucks.Base.{
  ℕ, ◌≤◌, Bool, true, false, ◌&&◌, ◌||◌, not, leb, leb→le, le→leb, Option, none, some, List, [],
  ◌∷◌, All, any_of, length, ◌≡◌, refl, sym, ◌∙◌, ap, arith, Bool-cases, inl, inr,
}
use smart_trucks.Base.Text.{
  Text, text_eq, text_eq_refl, text_eq_sound, text_le, text_le_total, text_le_trans,
}
use smart_trucks.Base.Int.{ℤ, leℤ, leℤ_trans, leℤ_total, leℤ_refl, leℤ_antisym}
use smart_trucks.Base.Sort.{sort_by, sort_by-least, any_of-sort_by, sort_empty}
use smart_trucks.Ble.Observers.{
  Candidate, Readings, first_of, by_observer, double_median, closer, rank_observers,
}
use smart_trucks.Ble.Observers.Median.{IsDoubleMedian, double_median-IsDoubleMedian}
use smart_trucks.Ble.Observers.Groups.{
  heard, readings_of, names, AllDistinct, grouped, readings_of-heard, names-readings_of,
  length-names, All-readings_of,
}

text_le_other : (a b : Text) → text_le a b ≡ false → text_le b a ≡ true
text_le_other a b h = elim (text_le_total a b) [ inl e ↦ cc | inr e ↦ e ]

text_le_refl : (a : Text) → text_le a a ≡ true
text_le_refl a = elim (text_le_total a a) [ inl e ↦ e | inr e ↦ e ]

-- The order of the ranking, on medians and names.
abbrev above : ℤ → Text → ℤ → Text → Bool
above m a n b = leℤ n m && (not (leℤ m n) || text_le a b)

above_total : (m : ℤ) (a : Text) (n : ℤ) (b : Text) → above m a n b ≡ false → above n b m a ≡ true
above_total m a n b h = ground (arith, leℤ_total m n, leℤ_total n m, text_le_other a b)

above_trans :
    (m : ℤ) (a : Text) (n : ℤ) (b : Text) (k : ℤ) (c : Text)
    → above m a n b ≡ true
    → above n b k c ≡ true
    → above m a k c ≡ true
above_trans m a n b k c h i =
    ground (
      arith,
      leℤ_trans k n m,
      leℤ_trans m k n,
      leℤ_trans n m k,
      leℤ_trans m n k,
      text_le_trans a b c,
    )

above_refl : (m : ℤ) (a : Text) → above m a m a ≡ true
above_refl m a = rw (leℤ_refl m, text_le_refl a) refl

abbrev ints_eq : List ℤ → List ℤ → Bool
ints_eq [] [] = true
ints_eq [] (q ∷ qs) = false
ints_eq (r ∷ rs) [] = false
ints_eq (r ∷ rs) (q ∷ qs) = leℤ r q && leℤ q r && ints_eq rs qs

ints_eq_refl : (rs : List ℤ) → ints_eq rs rs ≡ true
ints_eq_refl [] = refl
ints_eq_refl (r ∷ rs) = rw (leℤ_refl r, ints_eq_refl rs) refl

ints_eq_sound : (rs qs : List ℤ) → ints_eq rs qs ≡ true → rs ≡ qs
ints_eq_sound [] [] h = refl
ints_eq_sound [] (q ∷ qs) h = cc
ints_eq_sound (r ∷ rs) [] h = cc
ints_eq_sound (r ∷ rs) (q ∷ qs) h = ground (arith, leℤ_antisym r q, ints_eq_sound rs qs)

-- The same observer with the same readings.
abbrev same_group : Text × List ℤ → Text × List ℤ → Bool
same_group (a, rs) (b, qs) = text_eq a b && ints_eq rs qs

named_group :
    (k : Text) (rs : List ℤ) (seen : Readings)
    → any_of (same_group (k, rs)) seen ≡ true
    → any_of (text_eq k) (names seen) ≡ true
named_group k rs [] h = h
named_group k rs ((j, qs) ∷ more) h = ground (arith, named_group k rs more)

-- A group holds the readings of its name.
group-readings_of :
    (k : Text) (rs : List ℤ) (seen : Readings)
    → AllDistinct (names seen)
    → any_of (same_group (k, rs)) seen ≡ true
    → readings_of k seen ≡ rs
group-readings_of k rs [] d h = absurd (cc)
group-readings_of k rs ((j, qs) ∷ more) (f, d) h = elim (Bool-cases (text_eq k j)) [
  | inl e ↦ elim (Bool-cases (ints_eq rs qs)) [
    | inl i ↦ rw e (sym (ints_eq_sound rs qs i))
    | inr i ↦ absurd (ground (arith, text_eq_sound k j e, named_group k rs more))
  ]
  | inr e ↦ rw e (group-readings_of k rs more d (rw e at h))
]

-- The observer comes before another one by their medians, the greater first, and then by their names.
abbrev pub Wins : Text → ℤ → Text → ℤ → Type 0
Wins o m p n = (leℤ n m ≡ true) × (leℤ m n ≡ true → text_le o p ≡ true)

-- The observer is heard, and wins against all that are, each by the median of its readings.
abbrev pub IsNearest : {F : Type 0} → List (Candidate F) → Text → Type 0
IsNearest cs o =
    (1 ≤ length (heard o cs))
    × ((m : ℤ) × IsDoubleMedian (heard o cs) m
        × ((p : Text)
            → 1 ≤ length (heard p cs)
            → (n : ℤ) × IsDoubleMedian (heard p cs) n × Wins o m p n))

-- What the ranking answers: no name where no observer is heard; and the number of observers heard.
abbrev pub IsNamed : {F : Type 0} → List (Candidate F) → Option Text → Type 0
IsNamed cs none = (o : Text) → heard o cs ≡ []
IsNamed cs (some o) = IsNearest cs o

abbrev pub IsCount : {F : Type 0} → List (Candidate F) → ℕ → Type 0
IsCount cs n =
    (observers : List Text) × (n ≡ length observers)
    × AllDistinct observers
    × ((o : Text) → any_of (text_eq o) observers ≡ leb 1 (length (heard o cs)))

module _ {F : Type 0} (cs : List (Candidate F)) where
  seen : Readings
  seen = by_observer [] cs

  heard_name : (o : Text) → any_of (text_eq o) (names seen) ≡ leb 1 (length (heard o cs))
  unfolding seen
  heard_name o =
      names-readings_of o seen (grouped cs) ∙ ap (λ rs. leb 1 (length rs)) (readings_of-heard o cs)

  wins :
      (o p : Text)
      → closer (o, heard o cs) (p, heard p cs) ≡ true
      → Wins o (double_median (heard o cs)) p (double_median (heard p cs))
  wins o p h = ground arith

  head-readings :
      (k : Text) (rs : List ℤ) (more : Readings)
      → sort_by closer seen ≡ (k, rs) ∷ more
      → any_of (same_group (k, rs)) seen ≡ true
  head-readings k rs more e =
      sym (any_of-sort_by closer (same_group (k, rs)) seen)
      ∙ ap (any_of (same_group (k, rs))) e
      ∙ rw (text_eq_refl k, ints_eq_refl rs) refl

  head-leads :
      (k : Text) (rs : List ℤ) (more : Readings)
      → sort_by closer seen ≡ (k, rs) ∷ more
      → All (λ g. closer (k, rs) g ≡ true) seen
  head-leads k rs more e =
      sort_by-least closer (λ a b h. above_total (double_median a.1) a.0 (double_median b.1) b.0 h)
        (λ a b c h i.
          above_trans (double_median a.1) a.0 (double_median b.1) b.0 (double_median c.1) c.0 h i)
        (λ a. above_refl (double_median a.1) a.0) seen (k, rs) more e

  head-heard :
      (k : Text) (rs : List ℤ) (more : Readings)
      → sort_by closer seen ≡ (k, rs) ∷ more
      → rs ≡ heard k cs
  unfolding seen
  head-heard k rs more e =
      sym (group-readings_of k rs seen ((grouped cs).0) (head-readings k rs more e))
      ∙ readings_of-heard k cs

  IsNearest-of :
      (k : Text) (rs : List ℤ) (more : Readings)
      → sort_by closer seen ≡ (k, rs) ∷ more
      → IsNearest cs k
  unfolding seen
  IsNearest-of k rs more e = (
    leb→le 1 _ some_heard,
    (
      double_median (heard k cs),
      double_median-IsDoubleMedian (heard k cs) (leb→le 1 _ some_heard),
      λ p l. (
        double_median (heard p cs),
        double_median-IsDoubleMedian (heard p cs) l,
        wins k p (beats p l),
      ),
    ),
  )
    where
      some_heard : leb 1 (length (heard k cs)) ≡ true
      some_heard = sym (heard_name k) ∙ named_group k rs seen (head-readings k rs more e)

      beats : (p : Text) → 1 ≤ length (heard p cs) → closer (k, heard k cs) (p, heard p cs) ≡ true
      beats p l =
          rw⁻¹ (head-heard k rs more e, readings_of-heard p cs)
            (All-readings_of (λ g. closer (k, rs) g ≡ true) p seen (head-leads k rs more e)
              (heard_name p ∙ le→leb 1 _ l))

  IsNamed-first : (sorted : Readings) → sort_by closer seen ≡ sorted → IsNamed cs (first_of sorted)
  unfolding seen
  IsNamed-first [] e =
      λ o. sym (readings_of-heard o cs) ∙ ap (readings_of o) (sort_empty closer seen e)
  IsNamed-first ((k, rs) ∷ more) e = IsNearest-of k rs more e

-- Whatever the candidates: where a named observer is heard with a reading, one is answered that is, and of those heard
-- none has a greater median of its readings, nor the same one and a lesser name; otherwise none is; and the count is
-- that of the observers heard, each once.
pub rank_observers-IsNearest :
    {F : Type 0} (cs : List (Candidate F))
    → IsNamed cs (rank_observers cs).0 × IsCount cs (rank_observers cs).1
unfolding rank_observers
rank_observers-IsNearest cs = (
  unfold seen in IsNamed-first cs (sort_by closer (by_observer [] cs)) refl,
  (
    names (by_observer [] cs),
    sym (length-names (by_observer [] cs)),
    (grouped cs).0,
    unfold seen in heard_name cs,
  ),
)
