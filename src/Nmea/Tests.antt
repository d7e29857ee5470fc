-- ===== src/Nmea/Tests.antt =====
-- Tests of the NMEA reader at concrete inputs.
use smart_trucks.Base.{true, false, none, some, List, [], ◌∷◌, ◌≡◌, refl}
use smart_trucks.Base.Ticks.{tick_floats}
use smart_trucks.Nmea.{
  Sentence, rmc, gga, gsa, Reading, update_reading, update_all, is_valid_fix,
  has_non_zero_coordinates,
}
use smart_trucks.Nmea.Position.{paired, void_invalidates}

abbrev locked : Reading tick_floats
locked = record {
  latitude = some 40;
  longitude = some 70;
  altitude = none;
  speed_kmh = some 3;
  heading = none;
  hdop = some 1;
  pdop = none;
  fix_quality = 1;
  fix_type = 3;
  satellites = 7;
}

abbrev fixes : List (Sentence tick_floats)
fixes = gsa 3 none ∷ gga 1 7 (some 0) (some 0) none none ∷ []

locked_paired : paired tick_floats (some 40) (some 70) ≡ true
unfolding has_non_zero_coordinates
locked_paired = refl

no_place : has_non_zero_coordinates tick_floats (some 0) (some 0) ≡ false
unfolding has_non_zero_coordinates
no_place = refl

void_invalidates_example :
    let end =
      update_all tick_floats fixes
        (update_reading tick_floats (rmc false none none none none) locked) in
    is_valid_fix tick_floats end.latitude end.longitude end ≡ false
void_invalidates_example =
    void_invalidates tick_floats locked none none none none fixes (refl, (no_place, tt))
