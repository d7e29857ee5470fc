-- ===== src/Ble/Observers.antt =====
-- ble-sensor/main.py: `_rank_observers`, which vantage point hears an asset loudest. An RSSI is dBm, a Python `int`.
pub mod Median
pub mod Groups
pub mod Nearest
use smart_trucks.Base.{
  ℕ, zero, suc, ◌-◌, ◌/◌, ◌%◌, Bool, true, false, ◌&&◌, ◌||◌, not, ◌==◌, Option, none, some,
  if◌then◌else◌, List, [], ◌∷◌, ◌++◌, length,
}
use smart_trucks.Base.Text.{Text, text_eq, text_le}
use smart_trucks.Base.Int.{ℤ, pos, leℤ, ◌+ℤ◌}
use smart_trucks.Base.Sort.{sort_by}

pub record Candidate (F : Type 0) : Type 0 where
  pub captured_at_utc : Text
  pub pi_id : Text
  pub latitude : Option F
  pub longitude : Option F
  pub score : F
  pub rssi : Option ℤ
  pub observer_id : Text

-- The readings by observer, in the order of their first one.
abbrev pub Readings : Type 0
Readings = List (Text × List ℤ)

-- `by_observer.setdefault(observer_id, []).append(rssi)`
unfoldable pub append_reading : Text → ℤ → Readings → Readings
append_reading o r [] = (o, r ∷ []) ∷ []
append_reading o r ((k, rs) ∷ more) =
    let rest = append_reading o r more in
    if text_eq o k then (k, rs ++ r ∷ []) ∷ more else (k, rs) ∷ rest

abbrev pub no_text : Text → Bool
no_text [] = true
no_text (c ∷ s) = false

abbrev pub read_one : Text → Option ℤ → Readings → Readings
read_one o none seen = seen
read_one o (some r) seen = if no_text o then seen else append_reading o r seen

unfoldable pub by_observer : {F : Type 0} → Readings → List (Candidate F) → Readings
unfolding append_reading
by_observer seen [] = seen
by_observer seen (c ∷ cs) = by_observer (read_one c.observer_id c.rssi seen) cs

abbrev pub at_index : ℕ → List ℤ → ℤ
at_index i [] = pos 0
at_index zero (r ∷ rs) = r
at_index (suc i) (r ∷ rs) = at_index i rs

-- Twice `median_rssi`: the halves of Python's floats are exact.
unfoldable pub double_median : List ℤ → ℤ
double_median values =
    let ordered = sort_by leℤ values in
    let mid = length ordered / 2 in
    if length ordered % 2 == 1
    then at_index mid ordered +ℤ at_index mid ordered
    else at_index (mid - 1) ordered +ℤ at_index mid ordered

-- `(-median, observer_id)` of `a` is not above that of `b`.
abbrev pub closer : Text × List ℤ → Text × List ℤ → Bool
closer (a, rs) (b, qs) =
    leℤ (double_median qs) (double_median rs)
    && (not (leℤ (double_median rs) (double_median qs)) || text_le a b)

abbrev pub first_of : Readings → Option Text
first_of [] = none
first_of ((o, rs) ∷ more) = some o

-- `_rank_observers`
unfoldable pub rank_observers : {F : Type 0} → List (Candidate F) → Option Text × ℕ
unfolding by_observer
rank_observers cs = let seen = by_observer [] cs in (first_of (sort_by closer seen), length seen)
