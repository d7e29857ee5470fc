-- ===== src/Geofence/Crossings.antt =====
-- telematics-edge/geofence.py: the enter and exit events of each geofence alternate, and end where the set of
-- active geofences stands.
use smart_trucks.Base.{
  Bool, true, false, ◌&&◌, not, Option, none, some, if◌then◌else◌, List, [], ◌∷◌, ◌++◌, ◌≡◌, refl,
  append_assoc, arith, ap, ◌∙◌,
}
use smart_trucks.Base.Float.{FloatOps}
use smart_trucks.Base.Text.{Text, text_eq, text_eq_sound}
use smart_trucks.Geofence.{
  Crossing, geofence_enter, geofence_exit, member, difference, Geofences, currently_inside,
  Position, entering, exiting, cross, evaluate_location, patrol,
}

-- No id twice, as in a dictionary's keys or a set.
abbrev pub Distinct : List Text → Type 0
Distinct [] = Unit
Distinct (x ∷ xs) = (member x xs ≡ false) × Distinct xs

-- The events of one geofence from inside (`true`) or outside: where they end, or `none` at an entry from
-- inside or an exit from outside.
abbrev pub replay : Text → Bool → List Crossing → Option Bool
replay x b [] = some b
replay x b (geofence_enter y ∷ es) =
    if text_eq x y then (if b then none else replay x true es) else replay x b es
replay x b (geofence_exit y ∷ es) =
    if text_eq x y then (if b then replay x false es else none) else replay x b es

member_same : (x y : Text) (xs : List Text) → text_eq x y ≡ true → member x xs ≡ member y xs
member_same x y xs e = ap (λ z. member z xs) (text_eq_sound x y e)

replay-entering :
    (x : Text) (b : Bool) (xs : List Text) (es : List Crossing)
    → Distinct xs
    → replay x b (entering xs ++ es)
      ≡ (if member x xs then (if b then none else replay x true es) else replay x b es)
replay-entering x b [] es d = refl
replay-entering x b (y ∷ xs) es (d, ds) =
    ground
      (arith, member_same x y xs, replay-entering x b xs es ds, replay-entering x true xs es ds)

replay-exiting :
    (x : Text) (b : Bool) (xs : List Text) (es : List Crossing)
    → Distinct xs
    → replay x b (exiting xs ++ es)
      ≡ (if member x xs then (if b then replay x false es else none) else replay x b es)
replay-exiting x b [] es d = refl
replay-exiting x b (y ∷ xs) es (d, ds) =
    ground (arith, member_same x y xs, replay-exiting x b xs es ds, replay-exiting x false xs es ds)

member-difference :
    (x : Text) (a b : List Text) → member x (difference a b) ≡ (member x a && not (member x b))
unfolding difference
member-difference x [] b = refl
member-difference x (y ∷ a) b = ground (arith, member_same x y b, member-difference x a b)

difference-Distinct : (a b : List Text) → Distinct a → Distinct (difference a b)
unfolding difference
difference-Distinct [] b d = tt
difference-Distinct (y ∷ a) b (d, ds) =
    ground (arith, member-difference y a b, difference-Distinct a b ds)

replay-cross :
    (x : Text) (active now : List Text) (es : List Crossing)
    → Distinct active
    → Distinct now
    → replay x (member x active) ((cross active now).1 ++ es) ≡ replay x (member x now) es
unfolding cross
replay-cross x active now es d n =
    ap (replay x (member x active))
      (append_assoc (entering (difference now active)) (exiting (difference active now)) es)
    ∙ replay-entering x (member x active) (difference now active)
        (exiting (difference active now) ++ es) (difference-Distinct now active n)
    ∙ ground (
      arith,
      replay-exiting x (member x active) (difference active now) es
          (difference-Distinct active now d),
      replay-exiting x true (difference active now) es (difference-Distinct active now d),
      member-difference x now active,
      member-difference x active now,
    )

module _ (fl : FloatOps) (fences : Geofences fl) where
  -- The ids of the loaded geofences.
  abbrev pub ids : Geofences fl → List Text
  ids [] = []
  ids ((id, polygon) ∷ rest) = id ∷ ids rest

  member-inside :
      (lat lon : fl.Float) (g : Geofences fl) (x : Text)
      → member x (ids g) ≡ false
      → member x (currently_inside fl lat lon g) ≡ false
  unfolding currently_inside
  member-inside lat lon [] x h = refl
  member-inside lat lon ((id, polygon) ∷ g) x h = ground (arith, member-inside lat lon g x)

  inside-Distinct :
      (lat lon : fl.Float) (g : Geofences fl)
      → Distinct (ids g)
      → Distinct (currently_inside fl lat lon g)
  unfolding currently_inside
  inside-Distinct lat lon [] d = tt
  inside-Distinct lat lon ((id, polygon) ∷ g) (d, ds) =
      ground (arith, member-inside lat lon g id d, inside-Distinct lat lon g ds)

  -- A step's events, in front of later ones.
  Steps : List Text → List Text × List Crossing → Type 0
  Steps active (active', es) =
      Distinct active'
      × ((x : Text) (later : List Crossing)
          → replay x (member x active) (es ++ later) ≡ replay x (member x active') later)

  cross-Steps :
      (active now : List Text) → Distinct active → Distinct now → Steps active (cross active now)
  unfolding cross Steps
  cross-Steps active now d n = (n, λ x later. replay-cross x active now later d n)

  evaluate-Steps :
      (active : List Text) (r : Position fl)
      → Distinct (ids fences)
      → Distinct active
      → Steps active (evaluate_location fl fences active r)
  unfolding evaluate_location Steps
  evaluate-Steps active r f d = at_lat r.latitude
    where
      stay : Steps active (active, [])
      stay = (d, λ x later. refl)

      at_fix :
          (lat lon : fl.Float) (b : Bool)
          → Steps active
              (if b then (active, []) else cross active (currently_inside fl lat lon fences))
      at_fix lat lon true = stay
      at_fix lat lon false =
          cross-Steps active (currently_inside fl lat lon fences) d
            (inside-Distinct lat lon fences f)

      at_lon :
          (lat : fl.Float) (o : Option fl.Float)
          → Steps active (elim o as (λ _. List Text × List Crossing) [
            | none ↦ (active, [])
            | some lon ↦
                if r.no_fix then (active, []) else cross active (currently_inside fl lat lon fences)
          ])
      at_lon lat none = stay
      at_lon lat (some lon) = at_fix lat lon r.no_fix

      at_lat :
          (o : Option fl.Float)
          → Steps active (elim o as (λ _. List Text × List Crossing) [
            | none ↦ (active, [])
            | some lat ↦ elim r.longitude as (λ _. List Text × List Crossing) [
              | none ↦ (active, [])
              | some lon ↦
                  if r.no_fix
                  then (active, [])
                  else cross active (currently_inside fl lat lon fences)
            ]
          ])
      at_lat none = stay
      at_lat (some lat) = at_lon lat r.longitude

  -- Over any positions, with the ids of the loaded geofences and of the active ones distinct: for every
  -- geofence the events enter only from outside and exit only from inside, and end inside exactly if the
  -- geofence is among the active ones at the end.
  pub patrol_replays :
      (active : List Text) (rs : List (Position fl)) (x : Text)
      → Distinct (ids fences)
      → Distinct active
      → replay x (member x active) (patrol fl fences active rs).1
        ≡ some (member x (patrol fl fences active rs).0)
  unfolding patrol Steps
  patrol_replays active [] x f d = refl
  patrol_replays active (r ∷ rs) x f d =
      let (d', steps) = evaluate-Steps active r f d in
      steps x _ ∙ patrol_replays (evaluate_location fl fences active r).0 rs x f d'
