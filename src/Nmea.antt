-- ===== src/Nmea.antt =====
-- telematics-edge/nmea_reader.py: `_update_reading`, sentence by sentence, and `_is_valid_fix` of
-- telematics-edge/main.py. A sentence is its fields as pynmea2 gives them, where they are numbers; pynmea2
-- itself and the serial line are not modelled, nor is the reading's timestamp.
mod Tests
pub mod Position
use smart_trucks.Base.{
  ℕ, Bool, true, false, ◌&&◌, ◌||◌, not, ltb, leb, Option, none, some, if◌then◌else◌, List, [], ◌∷◌,
}
use smart_trucks.Base.Float.{FloatOps}

module _ (fl : FloatOps) where
  open fl use {Float, lit, mul, div, eq}

  -- A status is whether it is "A"; an absent quality, count or fix type reads as its default.
  pub data Sentence : Type 0 where
    rmc : Bool → Option Float → Option Float → Option Float → Option Float → Sentence  -- course, knots
    gga : ℕ → ℕ → Option Float → Option Float → Option Float → Option Float → Sentence  -- altitude, HDOP
    gsa : ℕ → Option Float → Sentence  -- fix type, PDOP
    gll : Bool → Option Float → Option Float → Sentence
    vtg : Option Float → Sentence  -- km/h
    other_sentence : Sentence

  -- `GpsReading`
  pub record Reading : Type 0 where
    pub latitude : Option Float
    pub longitude : Option Float
    pub altitude : Option Float
    pub speed_kmh : Option Float
    pub heading : Option Float
    pub hdop : Option Float
    pub pdop : Option Float
    pub fix_quality : ℕ
    pub fix_type : ℕ
    pub satellites : ℕ

  -- `_has_non_zero_coordinates`
  unfoldable pub has_non_zero_coordinates : Option Float → Option Float → Bool
  has_non_zero_coordinates (some lat) (some lon) = not (eq lat (lit 0)) && not (eq lon (lit 0))
  has_non_zero_coordinates (some lat) none = false
  has_non_zero_coordinates none lon = false

  abbrev at_position : Bool → Option Float → Option Float → Reading → Reading
  at_position is_good lat lon r =
      if is_good && has_non_zero_coordinates lat lon
      then record r { latitude = lat; longitude = lon }
      else r

  -- `if fix_type < 2: fix_type = 2`
  abbrev promote : ℕ → ℕ
  promote fix_type = if ltb fix_type 2 then 2 else fix_type

  -- The speed in knots, where VTG has given none.
  abbrev rmc_speed : Option Float → Option Float → Option Float
  rmc_speed (some kmh) knots = some kmh
  rmc_speed none none = none
  rmc_speed none (some knots) = some (mul knots (div (lit 1852) (lit 1000)))

  unfoldable pub update_reading : Sentence → Reading → Reading
  unfolding has_non_zero_coordinates
  update_reading (rmc is_active lat lon course knots) r =
      let moved = at_position true lat lon r in
      if is_active
      then record moved {
        heading = course;
        fix_type = promote r.fix_type;
        speed_kmh = rmc_speed r.speed_kmh knots;
      }
      else record r { latitude = none; longitude = none; fix_type = 1 }
  update_reading (gga quality sats lat lon alt dilution) r =
      let moved = at_position (ltb 0 quality) lat lon r in
      record moved { fix_quality = quality; satellites = sats; altitude = alt; hdop = dilution }
  update_reading (gsa mode dilution) r = record r { fix_type = mode; pdop = dilution }
  update_reading (gll is_active lat lon) r =
      let moved = at_position true lat lon r in
      if is_active then record moved { fix_type = promote r.fix_type } else r
  update_reading (vtg kmh) r = record r { speed_kmh = kmh }
  update_reading other_sentence r = r

  unfoldable pub update_all : List Sentence → Reading → Reading
  update_all [] r = r
  update_all (s ∷ ss) r = update_all ss (update_reading s r)

  -- `_is_valid_fix`
  unfoldable pub is_valid_fix : Option Float → Option Float → Reading → Bool
  is_valid_fix (some lat) (some lon) r = ltb 0 r.fix_quality || leb 2 r.fix_type
  is_valid_fix (some lat) none r = false
  is_valid_fix none lon r = false
