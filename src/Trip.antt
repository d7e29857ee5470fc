-- ===== src/Trip.antt =====
-- telematics-edge/trip_tracker.py: the trip state machine and its odometer. The clock counts ticks and never
-- goes back; `uuid4` is a source of ids, by how many were drawn. Readings are values: each
-- call is given its own.
mod Tests
pub mod Lifecycle
use smart_trucks.Base.{
  ℕ, suc, ◌+◌, ◌-◌, Bool, true, false, leb, ◌==◌, Option, none, some, if◌then◌else◌, List, [], ◌∷◌,
  ◌++◌,
}
use smart_trucks.Base.Float.{FloatOps, or_zero}
use smart_trucks.Base.Text.{Text}

pub data VehicleState : Type 0 where
  stopped idle moving : VehicleState

-- The first argument of `event_callback`.
pub data Event : Type 0 where
  trip_start idle_start idle_end trip_end : Event

module _ (fl : FloatOps) where
  open fl use {Float, lit, add, sub, mul, div, le, lt, sin, cos, sqrt, atan2, radians}

  pub record Reading : Type 0 where
    pub latitude : Option Float
    pub longitude : Option Float
    pub speed_kmh : Option Float
    pub no_fix : Bool  -- `fix_type == 1`
    pub at : ℕ  -- `datetime.now`

  pub record TripTracker : Type 0 where
    pub state : VehicleState
    pub speed_threshold : Float
    pub idle_timeout : ℕ
    pub current_trip_id : Option Text
    pub trip_distance_km : Float
    pub total_odometer_km : Float
    pub last_reading : Option (Float × Float)  -- its latitude and longitude
    pub idle_start_time : Option ℕ
    pub trips : ℕ  -- the ids drawn

  -- What an event carries: the trip's id, and the odometer at the event, which the two idle events do
  -- not send. The position, and the trip's distance at its end, are left out.
  pub record Emitted : Type 0 where
    pub event : Event
    pub trip_id : Option Text
    pub odometer_km : Float

  abbrev square : Float → Float
  square x = mul x x

  -- `_haversine_distance`, in kilometers.
  unfoldable pub haversine_distance : Float → Float → Float → Float → Float
  haversine_distance lat1 lon1 lat2 lon2 =
      let dlat = radians (sub lat2 lat1) in
      let dlon = radians (sub lon2 lon1) in
      let a =
        add (square (sin (div dlat (lit 2))))
          (mul (mul (cos (radians lat1)) (cos (radians lat2))) (square (sin (div dlon (lit 2))))) in
      mul (lit 6371) (mul (lit 2) (atan2 (sqrt a) (sqrt (sub (lit 1) a))))

  -- The distance since the last reading, on the trip and the odometer while moving.
  unfoldable pub advance : Float → Float → TripTracker → TripTracker
  unfolding haversine_distance
  advance lat lon t = elim t.last_reading [
    | none ↦ record t { last_reading = some (lat, lon) }
    | some (lat0, lon0) ↦ elim t.state [
      | moving ↦ record t {
        trip_distance_km = add t.trip_distance_km (haversine_distance lat0 lon0 lat lon);
        total_odometer_km = add t.total_odometer_km (haversine_distance lat0 lon0 lat lon);
        last_reading = some (lat, lon);
      }
      | _ ↦ record t { last_reading = some (lat, lon) }
    ]
  ]

  -- The idle time of a reading at `now` has run out.
  unfoldable pub timed_out : ℕ → Option ℕ → ℕ → Bool
  timed_out timeout none now = false
  timed_out timeout (some start) now = leb timeout (now - start)

  abbrev emit : Event → TripTracker → List Emitted
  emit e t =
      record { event = e; trip_id = t.current_trip_id; odometer_km = t.total_odometer_km } ∷ []

  -- The ladder on the state, for a speed that is at least the threshold (`fast`) or below it (`slow`).
  unfoldable pub transition :
      (ℕ → Text) → VehicleState → Bool → Bool → ℕ → TripTracker → TripTracker × List Emitted
  unfolding timed_out
  transition uuid stopped fast slow now t =
      let started = record t {
        state = moving;
        current_trip_id = some (uuid t.trips);
        trip_distance_km = lit 0;
        trips = suc t.trips;
      } in
      if fast then (started, emit trip_start started) else (t, [])
  transition uuid moving fast slow now t =
      let paused = record t { state = idle; idle_start_time = some now } in
      if slow then (paused, emit idle_start paused) else (t, [])
  transition uuid idle fast slow now t =
      let resumed = record t { state = moving; idle_start_time = none } in
      let ended = record t { state = stopped; idle_start_time = none } in
      if fast
      then (resumed, emit idle_end resumed)
      else if timed_out t.idle_timeout t.idle_start_time now
      then (record ended { current_trip_id = none }, emit trip_end ended)
      else (t, [])

  -- A reading with a position and a fix.
  unfoldable pub process_fix :
      (ℕ → Text) → TripTracker → Float → Float → Option Float → ℕ → TripTracker × List Emitted
  unfolding advance transition
  process_fix uuid t lat lon speed_kmh now =
      let speed = or_zero fl speed_kmh in
      transition uuid t.state (le t.speed_threshold speed) (lt speed t.speed_threshold) now
        (advance lat lon t)

  -- `process_gps_reading`
  unfoldable pub process_gps_reading :
      (ℕ → Text) → TripTracker → Reading → TripTracker × List Emitted
  unfolding process_fix
  process_gps_reading uuid t r = elim r.latitude [
    | none ↦ (t, [])
    | some lat ↦ elim r.longitude [
      | none ↦ (t, [])
      | some lon ↦ if r.no_fix then (t, []) else process_fix uuid t lat lon r.speed_kmh r.at
    ]
  ]

  -- The readings of a drive: the tracker, and its events in order.
  unfoldable pub track : (ℕ → Text) → TripTracker → List Reading → TripTracker × List Emitted
  track uuid t [] = (t, [])
  track uuid t (r ∷ rs) =
      let out = process_gps_reading uuid t r in
      let rest = track uuid out.0 rs in (rest.0, out.1 ++ rest.1)
