-- ===== src/Ble/Observers/Median.antt =====
-- ble-sensor/main.py: `median_rssi` against what a median is.
use smart_trucks.Base.{
  ℕ, zero, suc, ◌+◌, ◌-◌, ◌/◌, ◌%◌, ◌≤◌, ◌<◌, Bool, true, false, ◌&&◌, ◌==◌, not, List, [], ◌∷◌,
  All, any_of, keep_if, length, ◌≡◌, refl, sym, ◌∙◌, ap, subst, arith, if_either,
}
use smart_trucks.Base.Int.{ℤ, leℤ, leℤ_refl, leℤ_total, leℤ_trans, ◌+ℤ◌}
use smart_trucks.Base.Sort.{
  sort_by, Sorted, sort_by-Sorted, length_keep-sort_by, length-sort_by, any_of-sort_by,
}
use smart_trucks.Ble.Observers.{at_index, double_median}

abbrev pub is_int : ℤ → ℤ → Bool
is_int a b = leℤ a b && leℤ b a

-- The value at place `i` of the readings in rising order: one of them, with at most `i` below it and at most as many
-- above it as there are places behind `i`.
abbrev pub Ranks : ℕ → List ℤ → ℤ → Type 0
Ranks i rs r =
    (any_of (is_int r) rs ≡ true)
    × (length (keep_if (λ q. not (leℤ r q)) rs) ≤ i)
    × (length (keep_if (λ q. not (leℤ q r)) rs) + i < length rs)

-- Twice the median: the sum of the two middle readings, which are one at an odd number of them.
abbrev pub IsDoubleMedian : List ℤ → ℤ → Type 0
IsDoubleMedian rs m =
    (low : ℤ) × (high : ℤ) × (m ≡ low +ℤ high)
    × Ranks ((length rs - 1) / 2) rs low
    × Ranks (length rs / 2) rs high

below-All :
    (r : ℤ) (rs : List ℤ)
    → All (λ q. leℤ r q ≡ true) rs
    → length (keep_if (λ q. not (leℤ r q)) rs) ≡ 0
below-All r [] h = refl
below-All r (q ∷ rs) (h, hs) = ground (arith, below-All r rs hs)

length-keep_if_le : (p : ℤ → Bool) (rs : List ℤ) → length (keep_if p rs) ≤ length rs
length-keep_if_le p [] = omega arith
length-keep_if_le p (r ∷ rs) = ground (arith, length-keep_if_le p rs)

le_at_index :
    (r : ℤ) (rs : List ℤ) (i : ℕ)
    → All (λ q. leℤ r q ≡ true) rs
    → i < length rs
    → leℤ r (at_index i rs) ≡ true
le_at_index r [] i h l = absurd (omega arith)
le_at_index r (q ∷ rs) zero (h, hs) l = h
le_at_index r (q ∷ rs) (suc i) (h, hs) l = le_at_index r rs i hs (omega arith)

at_index-Ranks : (rs : List ℤ) (i : ℕ) → Sorted leℤ rs → i < length rs → Ranks i rs (at_index i rs)
at_index-Ranks [] i s l = absurd (omega arith)
at_index-Ranks (r ∷ rs) zero (h, s) l =
    ground (arith, leℤ_refl r, below-All r rs h, length-keep_if_le (λ q. not (leℤ q r)) rs)
at_index-Ranks (r ∷ rs) (suc i) (h, s) l =
    ground (arith, at_index-Ranks rs i s (omega arith), le_at_index r rs i h (omega arith))

Ranks-unsorted : (rs : List ℤ) (i : ℕ) (r : ℤ) → Ranks i (sort_by leℤ rs) r → Ranks i rs r
Ranks-unsorted rs i r (m, b, a) = (
  sym (any_of-sort_by leℤ (is_int r) rs) ∙ m,
  omega (arith, length_keep-sort_by leℤ (λ q. not (leℤ r q)) rs),
  omega (arith, length_keep-sort_by leℤ (λ q. not (leℤ q r)) rs, length-sort_by leℤ rs),
)

ranked_place : (rs : List ℤ) (i : ℕ) → i < length rs → Ranks i rs (at_index i (sort_by leℤ rs))
ranked_place rs i l = Ranks-unsorted rs i (at_index i (sort_by leℤ rs)) (
    at_index-Ranks (sort_by leℤ rs) i (sort_by-Sorted leℤ leℤ_total leℤ_trans rs)
      (omega (arith, length-sort_by leℤ rs)))

odd_half : (n : ℕ) → n % 2 == 1 ≡ true → n / 2 ≡ (n - 1) / 2
odd_half n h = ground arith

even_half : (n : ℕ) → 1 ≤ n → n % 2 == 1 ≡ false → n / 2 - 1 ≡ (n - 1) / 2
even_half n l h = ground arith

half_below : (n : ℕ) → 1 ≤ n → n / 2 < n
half_below n l = omega arith

-- The readings at two places of the sorted ones that are the middle ones.
middle_pair :
    (rs : List ℤ) (i : ℕ)
    → 1 ≤ length rs
    → i ≡ (length rs - 1) / 2
    → IsDoubleMedian rs
        (at_index i (sort_by leℤ rs) +ℤ at_index (length (sort_by leℤ rs) / 2) (sort_by leℤ rs))
middle_pair rs i l e = (
  at_index i (sort_by leℤ rs),
  at_index (length (sort_by leℤ rs) / 2) (sort_by leℤ rs),
  refl,
  subst (λ k. Ranks k rs (at_index i (sort_by leℤ rs))) e (ranked_place rs i (omega arith)),
  subst (λ k. Ranks (length rs / 2) rs (at_index (k / 2) (sort_by leℤ rs)))
      (sym (length-sort_by leℤ rs)) (ranked_place rs (length rs / 2) (half_below (length rs) l)),
)

-- `median_rssi`, doubled, of at least one reading is twice their median.
pub double_median-IsDoubleMedian :
    (rs : List ℤ) → 1 ≤ length rs → IsDoubleMedian rs (double_median rs)
unfolding double_median
double_median-IsDoubleMedian rs l =
    let n = length-sort_by leℤ rs in
    if_either (IsDoubleMedian rs) (length (sort_by leℤ rs) % 2 == 1)
      (λ o.
        middle_pair rs (length (sort_by leℤ rs) / 2) l
          (odd_half (length (sort_by leℤ rs)) o ∙ ap (λ k. (k - 1) / 2) n))
      (λ e.
        middle_pair rs (length (sort_by leℤ rs) / 2 - 1) l
          (even_half (length (sort_by leℤ rs)) (omega (arith, n)) e ∙ ap (λ k. (k - 1) / 2) n))
