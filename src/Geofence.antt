-- ===== src/Geofence.antt =====
-- telematics-edge/geofence.py: the ray cast and the enter and exit events. A geofence is its id and its
-- polygon, the list of its (latitude, longitude) corners. Python's sets are lists without an order: a set is read
-- by membership alone.
mod Tests
pub mod RayCast
pub mod Crossings
use smart_trucks.Base.{
  ℕ, suc, ◌-◌, Bool, true, false, ◌&&◌, ◌||◌, not, ltb, Option, none, some, if◌then◌else◌, List, [],
  ◌∷◌, ◌++◌, keep_if, length, any_of,
}
use smart_trucks.Base.Float.{FloatOps, max, min}
use smart_trucks.Base.Text.{Text, text_eq}

pub data Crossing : Type 0 where
  geofence_enter geofence_exit : Text → Crossing

-- `x in xs`
abbrev pub member : Text → List Text → Bool
member x xs = any_of (text_eq x) xs

-- `a - b`
unfoldable pub difference : List Text → List Text → List Text
difference a b = keep_if (λ x. not (member x b)) a

abbrev pub entering : List Text → List Crossing
entering [] = []
entering (x ∷ xs) = geofence_enter x ∷ entering xs

abbrev pub exiting : List Text → List Crossing
exiting [] = []
exiting (x ∷ xs) = geofence_exit x ∷ exiting xs

-- A position's crossings, and the new `active_geofences`.
unfoldable pub cross : List Text → List Text → List Text × List Crossing
unfolding difference
cross active now = (now, entering (difference now active) ++ exiting (difference active now))

module _ (fl : FloatOps) where
  open fl use {Float, add, sub, mul, div, lt, le, eq}

  abbrev pub Corner : Type 0
  Corner = Float × Float  -- latitude, longitude

  -- The variables of the loop. `xinters` is unbound before its first assignment, and reading it then
  -- raises `UnboundLocalError`: `unbound`.
  pub record Cast : Type 0 where
    pub inside : Bool
    pub xinters : Option Float
    pub p1 : Corner
    pub unbound : Bool

  -- One turn of the loop at the corner `p2`, for the point (y, x).
  unfoldable pub cast_edge : Float → Float → Cast → Corner → Cast
  cast_edge y x c (p2y, p2x) =
      let p1y = c.p1.0 in
      let p1x = c.p1.1 in
      let next = record c { p1 = (p2y, p2x) } in
      if lt (min fl p1y p2y) y && le y (max fl p1y p2y) && le x (max fl p1x p2x)
      then (let xi =
            if not (eq p1y p2y)
            then some (add (div (mul (sub y p1y) (sub p2x p1x)) (sub p2y p1y)) p1x)
            else c.xinters in
          if eq p1x p2x then record next { xinters = xi; inside = not c.inside } else elim xi [
            | none ↦ record next { unbound = true }
            | some v ↦
                if le x v
                then record next { xinters = some v; inside = not c.inside }
                else record next { xinters = some v }
          ])
      else next

  unfoldable pub cast_edges : Float → Float → Cast → List Corner → Cast
  cast_edges y x c [] = c
  cast_edges y x c (p ∷ ps) = cast_edges y x (cast_edge y x c p) ps

  -- The loop walks the corners from the first round to the first again; its first turn is an edge of
  -- no length.
  unfoldable pub cast_polygon : Float → Float → Corner → List Corner → Cast
  unfolding cast_edges
  cast_polygon y x p ps =
      cast_edges y x (record { inside = false; xinters = none; p1 = p; unbound = false })
        (p ∷ ps ++ p ∷ [])

  -- `_is_point_in_polygon`
  unfoldable pub is_point_in_polygon : Float → Float → List Corner → Bool
  unfolding cast_polygon
  is_point_in_polygon lat lon [] = false
  is_point_in_polygon lat lon (p ∷ ps) =
      if ltb (length (p ∷ ps)) 3 then false else (cast_polygon lat lon p ps).inside

  abbrev pub Geofences : Type 0
  Geofences = List (Text × List Corner)

  -- `currently_inside`
  unfoldable pub currently_inside : Float → Float → Geofences → List Text
  unfolding is_point_in_polygon
  currently_inside lat lon [] = []
  currently_inside lat lon ((id, polygon) ∷ fences) =
      let rest = currently_inside lat lon fences in
      if is_point_in_polygon lat lon polygon then id ∷ rest else rest

  pub record Position : Type 0 where
    pub latitude : Option Float
    pub longitude : Option Float
    pub no_fix : Bool  -- `fix_type == 1`

  -- `evaluate_location`
  unfoldable pub evaluate_location : Geofences → List Text → Position → List Text × List Crossing
  unfolding cross currently_inside
  evaluate_location fences active r = elim r.latitude [
    | none ↦ (active, [])
    | some lat ↦ elim r.longitude [
      | none ↦ (active, [])
      | some lon ↦ if r.no_fix then (active, []) else cross active (currently_inside lat lon fences)
    ]
  ]

  -- The positions of a drive: the active geofences, and the events in order.
  unfoldable pub patrol : Geofences → List Text → List Position → List Text × List Crossing
  patrol fences active [] = (active, [])
  patrol fences active (r ∷ rs) =
      let out = evaluate_location fences active r in
      let rest = patrol fences out.0 rs in (rest.0, out.1 ++ rest.1)
