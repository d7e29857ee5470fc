-- ===== src/Gps/Tests.antt =====
-- Tests of the GPS models at concrete inputs.
use smart_trucks.Base.{not, none, some, [], ◌∷◌, refl}
use smart_trucks.Base.Ticks.{tick_floats}
use smart_trucks.Gps.Filter.{stationary, GpsFilterConfig, GpsTrackFilter, Fix, poor_hdop}
use smart_trucks.Gps.Process.{process, process_all}
use smart_trucks.Gps.Process.Reports.{Delivers, process-Delivers}
use smart_trucks.Gps.Process.Parked.{
  IsParked, StaysAll, drifts, parked_no_starburst, StateAfter, departs_iff_no_drift,
}

abbrev settings : GpsFilterConfig tick_floats
settings = record {
  stationary_speed_kmh = 5;
  stationary_radius_m = 20;
  min_track_distance_m = 8;
  stationary_hold_seconds = 8;
  max_hdop = 3;
  keepalive_seconds = 0;
}

abbrev parked_filter : GpsTrackFilter tick_floats
parked_filter = record {
  config = settings;
  state = some stationary;
  anchor_lat = some 40;
  anchor_lon = some 70;
  progress_lat = none;
  progress_lon = none;
  last_progress_monotonic = 0;
  last_emit_monotonic = some 1;
}

abbrev slow_fix : Fix tick_floats
slow_fix = record {
  latitude = 44;
  longitude = 70;
  speed_kmh = some 2;
  hdop = some 1;
  now_monotonic = 9;
}

abbrev fast_fix : Fix tick_floats
fast_fix = record {
  latitude = 60;
  longitude = 90;
  speed_kmh = some 50;
  hdop = some 1;
  now_monotonic = 12;
}

abbrev parked_here : IsParked tick_floats settings 40 70 parked_filter
parked_here = record { same_config = refl; parked = refl; at_lat = refl; at_lon = refl }

process-Delivers_example :
    Delivers tick_floats parked_filter fast_fix (process tick_floats parked_filter fast_fix)
process-Delivers_example = process-Delivers tick_floats parked_filter fast_fix (refl, refl, refl)

parked_no_starburst_example :
    StaysAll tick_floats settings 40 70
      (process_all tick_floats parked_filter (slow_fix ∷ slow_fix ∷ []))
unfolding poor_hdop
parked_no_starburst_example =
    parked_no_starburst tick_floats settings 40 70 parked_filter (slow_fix ∷ slow_fix ∷ [])
      parked_here (refl, (refl, tt))

departs_iff_no_drift_example :
    StateAfter tick_floats settings 40 70
      (process tick_floats parked_filter fast_fix)
      (not (drifts tick_floats settings 40 70 fast_fix))
departs_iff_no_drift_example =
    departs_iff_no_drift tick_floats settings 40 70 parked_filter fast_fix parked_here
