-- ===== src/Trip/Lifecycle.antt =====
-- telematics-edge/trip_tracker.py: the life of a trip, as its events tell it, and the odometer.
use smart_trucks.Base.{
  ℕ, Bool, true, false, Option, none, is_some, All, subst, sym, ◌∙◌, List, [], ◌∷◌, ◌++◌, ◌≡◌, ◌⊎◌,
  refl, arith,
}
use smart_trucks.Base.Float.{FloatOps, or_zero}
use smart_trucks.Base.Text.{Text}
use smart_trucks.Trip.{
  VehicleState, stopped, idle, moving, trip_start, idle_start, idle_end, trip_end, Reading,
  TripTracker, Emitted, advance, transition, process_fix, process_gps_reading, track,
}

abbrev pub on_trip : VehicleState → Bool
on_trip stopped = false
on_trip idle = true
on_trip moving = true

abbrev pub is_idle : VehicleState → Bool
is_idle stopped = false
is_idle idle = true
is_idle moving = false

abbrev pub is_moving : VehicleState → Bool
is_moving stopped = false
is_moving idle = false
is_moving moving = true

module _ (fl : FloatOps) where
  -- A trip has an id exactly while it lasts, and an idle time exactly while it idles.
  pub record IsValid (t : TripTracker fl) : Type 0 where
    pub trip : is_some t.current_trip_id ≡ on_trip t.state
    pub pause : is_some t.idle_start_time ≡ is_idle t.state

  -- The events tell one story from a state with a trip's id: a trip starts only when stopped, idles only
  -- when moving, and resumes or ends only when idle, each under the id of its start.
  abbrev pub Narrates : VehicleState → Option Text → List (Emitted fl) → Type 0
  Narrates s trip [] = Unit
  Narrates stopped trip (e ∷ es) = (e.event ≡ trip_start) × Narrates moving e.trip_id es
  Narrates moving trip (e ∷ es) =
      (e.event ≡ idle_start) × (e.trip_id ≡ trip) × Narrates idle trip es
  Narrates idle trip (e ∷ es) =
      (e.trip_id ≡ trip)
      × (((e.event ≡ idle_end) × Narrates moving trip es)
          ⊎ ((e.event ≡ trip_end) × Narrates stopped none es))

  module _ (uuid : ℕ → Text) where
    -- A tracker after a step, and its events in front of a later story.
    abbrev Continues : TripTracker fl → TripTracker fl × List (Emitted fl) → Type 0
    Continues t (t', es) =
        IsValid t'
        × ((later : List (Emitted fl))
            → Narrates t'.state t'.current_trip_id later
            → Narrates t.state t.current_trip_id (es ++ later))

    transition-Continues :
        (s : VehicleState) (fast slow : Bool) (now : ℕ) (t : TripTracker fl)
        → t.state ≡ s
        → IsValid t
        → Continues t (transition fl uuid s fast slow now t)
    unfolding transition
    transition-Continues stopped fast slow now t e v = ground arith
    transition-Continues idle fast slow now t e v = ground arith
    transition-Continues moving fast slow now t e v = ground arith

    process-Continues :
        (t : TripTracker fl) (r : Reading fl)
        → IsValid t
        → Continues t (process_gps_reading fl uuid t r)
    unfolding process_gps_reading process_fix advance
    process-Continues t r v = ground arith

    -- From a tracker with its marks, over any readings: a trip has an id exactly while it lasts, and the
    -- events tell one story: a trip starts only when stopped, idles only when moving, and resumes or ends
    -- only when idle, under the id of its start.
    pub track-Narrates :
        (t : TripTracker fl) (rs : List (Reading fl))
        → IsValid t
        → IsValid (track fl uuid t rs).0 × Narrates t.state t.current_trip_id (track fl uuid t rs).1
    unfolding track
    track-Narrates t [] v = (v, tt)
    track-Narrates t (r ∷ rs) v =
        let (w, tells) = process-Continues t r v in
        let (end, later) = track-Narrates (process_gps_reading fl uuid t r).0 rs w in
        (end, tells _ later)

    -- A reading below the speed threshold, of a tracker that is not moving.
    standstill :
        (t : TripTracker fl) (r : Reading fl)
        → is_moving t.state ≡ false
        → fl.le t.speed_threshold (or_zero fl r.speed_kmh) ≡ false
        → let t' = (process_gps_reading fl uuid t r).0 in
          (is_moving t'.state ≡ false)
          × (t'.speed_threshold ≡ t.speed_threshold)
          × (t'.total_odometer_km ≡ t.total_odometer_km)
          × (t'.trip_distance_km ≡ t.trip_distance_km)
          × (t'.trips ≡ t.trips)
    unfolding process_gps_reading process_fix advance transition
    standstill t r m s = ground arith

    -- While the tracker is not moving and no reading reaches the speed threshold, no position changes the
    -- odometer or the trip's distance, and no trip begins.
    standstill_odometer :
        (t : TripTracker fl) (rs : List (Reading fl))
        → is_moving t.state ≡ false
        → All (λ r. fl.le t.speed_threshold (or_zero fl r.speed_kmh) ≡ false) rs
        → let t' = (track fl uuid t rs).0 in
          (t'.total_odometer_km ≡ t.total_odometer_km)
          × (t'.trip_distance_km ≡ t.trip_distance_km)
          × (t'.trips ≡ t.trips)
    unfolding track
    standstill_odometer t [] m s = (refl, refl, refl)
    standstill_odometer t (r ∷ rs) m (s, ss) =
        let (m', same, odometer, distance, trips) = standstill t r m s in
        let (os, ds, ts) =
          standstill_odometer (process_gps_reading fl uuid t r).0 rs m'
            (subst (λ x. All (λ r. fl.le x (or_zero fl r.speed_kmh) ≡ false) rs) (sym same) ss) in
        (os ∙ odometer, ds ∙ distance, ts ∙ trips)
