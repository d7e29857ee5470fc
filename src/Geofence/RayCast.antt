-- ===== src/Geofence/RayCast.antt =====
-- telematics-edge/geofence.py: `_is_point_in_polygon` is the even-odd rule.
use smart_trucks.Base.{
  Bool, true, false, ◌&&◌, ◌||◌, not, ltb, none, if◌then◌else◌, List, [], ◌∷◌, ◌++◌, length, ◌≡◌,
  refl, arith, Bool-cases, inl, inr,
}
use smart_trucks.Base.Float.{FloatOps, max, min}
use smart_trucks.Geofence.{Cast, cast_edge, cast_edges, cast_polygon, is_point_in_polygon}

module _ (fl : FloatOps) where
  open fl use {Float, add, sub, mul, div, lt, le, eq}

  -- What the loop relies on of the order of floats: equal numbers lie below the same numbers, and what
  -- lies above a number is not at most it.
  pub record IsOrder : Type 0 where
    pub lt_eq : (a b y : Float) → eq a b ≡ true → lt a y ≡ lt b y
    pub lt_not_le : (a y : Float) → lt a y ≡ true → le y a ≡ false

  -- The edge from `p` to `q` crosses the ray from (y, x): it spans the height y, half open, and meets it at x
  -- or beyond.
  abbrev pub crosses : Float → Float → Float × Float → Float × Float → Bool
  crosses y x (p1y, p1x) (p2y, p2x) =
      not (eq p1y p2y)
      && (lt (min fl p1y p2y) y && le y (max fl p1y p2y))
      && le x (max fl p1x p2x)
      && (eq p1x p2x || le x (add (div (mul (sub y p1y) (sub p2x p1x)) (sub p2y p1y)) p1x))

  -- The parity of the edges of a path that cross the ray.
  abbrev pub odd_crossings : Float → Float → Float × Float → List (Float × Float) → Bool
  odd_crossings y x p [] = false
  odd_crossings y x p (q ∷ qs) =
      let rest = odd_crossings y x q qs in if crosses y x p q then not rest else rest

  -- The closed path of a polygon's corners.
  abbrev pub even_odd : Float → Float → List (Float × Float) → Bool
  even_odd lat lon [] = false
  even_odd lat lon (p ∷ ps) =
      if ltb (length (p ∷ ps)) 3 then false else odd_crossings lat lon p (p ∷ ps ++ p ∷ [])

  module _ (o : IsOrder) where
    level_edge : (a b y : Float) → eq a b ≡ true → (lt (min fl a b) y && le y (max fl a b)) ≡ false
    level_edge a b y e = ground (arith, o.lt_eq a b y e, o.lt_not_le a y, o.lt_not_le b y)

    cast_edge_lem :
        (y x : Float) (c : Cast fl) (q : Float × Float)
        → let c' = cast_edge fl y x c q in
          (c'.inside ≡ (if crosses y x c.p1 q then not c.inside else c.inside))
          × (c'.p1 ≡ q)
          × (c'.unbound ≡ c.unbound)
    unfolding cast_edge
    cast_edge_lem y x c q = elim (Bool-cases (eq c.p1.0 q.0)) [
      | inl level ↦ ground (arith, level_edge c.p1.0 q.0 y level)
      | inr slope ↦ ground arith
    ]

    cast_edges_lem :
        (y x : Float) (c : Cast fl) (qs : List (Float × Float))
        → let c' = cast_edges fl y x c qs in
          (c'.inside ≡ (if odd_crossings y x c.p1 qs then not c.inside else c.inside))
          × (c'.unbound ≡ c.unbound)
    unfolding cast_edges
    cast_edges_lem y x c [] = (refl, refl)
    cast_edges_lem y x c (q ∷ qs) =
        ground (arith, cast_edge_lem y x c q, cast_edges_lem y x (cast_edge fl y x c q) qs)

    -- With an order on floats as stated, the ray cast never reads its intersection before it is assigned,
    -- and finds a point inside exactly by the even-odd rule: an odd number of the closed polygon's edges
    -- cross the ray, and there are at least three corners.
    pub is_point_in_polygon-even_odd :
        (lat lon : Float) (polygon : List (Float × Float)) (p : Float × Float)
        (ps : List (Float × Float))
        → (is_point_in_polygon fl lat lon polygon ≡ even_odd lat lon polygon)
          × ((cast_polygon fl lat lon p ps).unbound ≡ false)
    unfolding is_point_in_polygon cast_polygon
    is_point_in_polygon-even_odd lat lon [] p ps =
        (refl, (cast_edges_lem lat lon _ (p ∷ ps ++ p ∷ [])).1)
    is_point_in_polygon-even_odd lat lon (q ∷ qs) p ps = (
      ground (
        arith,
        cast_edges_lem lat lon (record { inside = false; xinters = none; p1 = q; unbound = false })
            (q ∷ qs ++ q ∷ []),
      ),
      (cast_edges_lem lat lon _ (p ∷ ps ++ p ∷ [])).1,
    )
