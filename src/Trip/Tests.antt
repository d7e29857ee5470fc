-- ===== src/Trip/Tests.antt =====
-- Tests of the trip tracker at concrete inputs.
use smart_trucks.Base.{ℕ, false, none, some, List, [], ◌∷◌, refl}
use smart_trucks.Base.Ticks.{tick_floats}
use smart_trucks.Base.Text.{Text}
use smart_trucks.Trip.{stopped, Reading, TripTracker, track}
use smart_trucks.Trip.Lifecycle.{IsValid, Narrates, track-Narrates}

abbrev draw : ℕ → Text
draw n = n ∷ []

abbrev parked : TripTracker tick_floats
parked = record {
  state = stopped;
  speed_threshold = 5;
  idle_timeout = 180;
  current_trip_id = none;
  trip_distance_km = 0;
  total_odometer_km = 7;
  last_reading = none;
  idle_start_time = none;
  trips = 0;
}

abbrev at_speed : ℕ → ℕ → Reading tick_floats
at_speed speed now = record {
  latitude = some 40;
  longitude = some 70;
  speed_kmh = some speed;
  no_fix = false;
  at = now;
}

abbrev drive : List (Reading tick_floats)
drive = at_speed 9 1 ∷ at_speed 0 2 ∷ at_speed 0 300 ∷ []

track-Narrates_example :
    IsValid tick_floats (track tick_floats draw parked drive).0
    × Narrates tick_floats stopped none (track tick_floats draw parked drive).1
track-Narrates_example =
    track-Narrates tick_floats draw parked drive (record { trip = refl; pause = refl })
