-- ===== src/Geofence/Tests.antt =====
-- Tests of the geofence engine at concrete inputs.
use smart_trucks.Base.{ℕ, true, false, ◌==◌, ltb, leb, some, List, [], ◌∷◌, ◌≡◌, refl, arith}
use smart_trucks.Base.Ticks.{tick_floats}
use smart_trucks.Base.Text.{codes}
use smart_trucks.Geofence.{
  Corner, Geofences, Position, member, is_point_in_polygon, cast_polygon, patrol,
}
use smart_trucks.Geofence.RayCast.{IsOrder, even_odd, is_point_in_polygon-even_odd}
use smart_trucks.Geofence.Crossings.{replay, patrol_replays}

abbrev square : List (Corner tick_floats)
square = (0, 0) ∷ (0, 10) ∷ (10, 10) ∷ (10, 0) ∷ []

lt_eq_ticks : (a b y : ℕ) → (a == b) ≡ true → ltb a y ≡ ltb b y
lt_eq_ticks a b y h = ground arith

lt_not_le_ticks : (a y : ℕ) → ltb a y ≡ true → leb y a ≡ false
lt_not_le_ticks a y h = ground arith

ticks-IsOrder : IsOrder tick_floats
ticks-IsOrder = record { lt_eq = lt_eq_ticks; lt_not_le = lt_not_le_ticks }

is_point_in_polygon-even_odd_example :
    (is_point_in_polygon tick_floats 5 5 square ≡ even_odd tick_floats 5 5 square)
    × ((cast_polygon tick_floats 5 5 (0, 0) square).unbound ≡ false)
is_point_in_polygon-even_odd_example =
    is_point_in_polygon-even_odd tick_floats ticks-IsOrder 5 5 square (0, 0) square

abbrev yards : Geofences tick_floats
yards = (codes "yard", square) ∷ (codes "depot", []) ∷ []

abbrev at_point : ℕ → ℕ → Position tick_floats
at_point lat lon = record { latitude = some lat; longitude = some lon; no_fix = false }

abbrev tour : List (Position tick_floats)
tour = at_point 5 5 ∷ at_point 50 5 ∷ []

patrol_replays_example :
    replay (codes "yard") false (patrol tick_floats yards [] tour).1
    ≡ some (member (codes "yard") (patrol tick_floats yards [] tour).0)
patrol_replays_example =
    patrol_replays tick_floats yards [] tour (codes "yard") (refl, (refl, tt)) tt
