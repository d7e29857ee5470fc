-- ===== src/Gps/Filter.antt =====
-- telematics-edge/gps_filter.py: the stationary-aware track filter. `self._anchor_lat` and the like
-- are options, and a distance to a missing coordinate is Python's `TypeError`.
use smart_trucks.Base.{Bool, true, false, ◌&&◌, Option, none, some, if◌then◌else◌}
use smart_trucks.Base.Result.{Result, ok, raise, type_error}
use smart_trucks.Base.Float.{FloatOps, max, min}

pub data Mode : Type 0 where
  stationary moving : Mode

pub data Reason : Type 0 where
  hdop_reject_pinned hdop_reject_no_anchor first_fix depart keepalive pinned arrive moving : Reason

module _ (fl : FloatOps) where
  open fl use {Float, lit, add, sub, mul, div, lt, le, eq, sin, cos, sqrt, atan2, radians}

  pub record GpsFilterConfig : Type 0 where
    pub stationary_speed_kmh : Float
    pub stationary_radius_m : Float
    pub min_track_distance_m : Float
    pub stationary_hold_seconds : Float
    pub max_hdop : Float
    pub keepalive_seconds : Float

  pub record GpsFilterResult : Type 0 where
    pub latitude : Float
    pub longitude : Float
    pub speed_kmh : Float
    pub is_pinned : Bool
    pub emit : Bool
    pub is_moving : Bool
    pub reason : Reason

  pub record GpsTrackFilter : Type 0 where
    pub config : GpsFilterConfig
    pub state : Option Mode
    pub anchor_lat : Option Float
    pub anchor_lon : Option Float
    pub progress_lat : Option Float
    pub progress_lon : Option Float
    pub last_progress_monotonic : Float
    pub last_emit_monotonic : Option Float

  -- The keyword arguments of `process`.
  pub record Fix : Type 0 where
    pub latitude : Float
    pub longitude : Float
    pub speed_kmh : Option Float
    pub hdop : Option Float
    pub now_monotonic : Float

  -- `haversine_m`, with the clamp of `a` to [0, 1].
  unfoldable pub haversine_m : Float → Float → Float → Float → Float
  haversine_m lat1 lon1 lat2 lon2 =
      let d_lat = radians (sub lat2 lat1) in
      let d_lon = radians (sub lon2 lon1) in
      let s_lat = sin (div d_lat (lit 2)) in
      let s_lon = sin (div d_lon (lit 2)) in
      let a =
        add (mul s_lat s_lat)
          (mul (mul (cos (radians lat1)) (cos (radians lat2))) (mul s_lon s_lon)) in
      let a = min fl (lit 1) (max fl (lit 0) a) in
      mul (mul (lit 6371000) (lit 2)) (atan2 (sqrt a) (sqrt (sub (lit 1) a)))

  -- The distance from a stored position, which may be `None`.
  unfoldable pub distance_from : Option Float → Option Float → Float → Float → Result Float
  distance_from (some lat1) (some lon1) lat lon = ok (haversine_m lat1 lon1 lat lon)
  distance_from (some lat1) none lat lon = raise type_error
  distance_from none lon1 lat lon = raise type_error

  -- The property `moving`.
  unfoldable pub is_moving_state : Option Mode → Bool
  is_moving_state (some Mode.moving) = true
  is_moving_state (some stationary) = false
  is_moving_state none = false

  -- `cfg.max_hdop > 0 and hdop is not None and hdop > cfg.max_hdop`
  unfoldable pub poor_hdop : GpsFilterConfig → Option Float → Bool
  poor_hdop cfg none = false
  poor_hdop cfg (some h) = lt (lit 0) cfg.max_hdop && lt cfg.max_hdop h

  -- A poor fix reports the anchor, or itself where there is none, and changes nothing.
  unfoldable pub report_rejected :
      Option Float → Option Float → Float → Bool → Fix → GpsFilterResult
  report_rejected (some lat) (some lon) speed now_moving fix = record {
    latitude = lat;
    longitude = lon;
    speed_kmh = speed;
    is_pinned = true;
    emit = false;
    is_moving = now_moving;
    reason = hdop_reject_pinned;
  }
  report_rejected (some lat) none speed now_moving fix = record {
    latitude = fix.latitude;
    longitude = fix.longitude;
    speed_kmh = speed;
    is_pinned = false;
    emit = false;
    is_moving = now_moving;
    reason = hdop_reject_no_anchor;
  }
  report_rejected none lon speed now_moving fix = record {
    latitude = fix.latitude;
    longitude = fix.longitude;
    speed_kmh = speed;
    is_pinned = false;
    emit = false;
    is_moving = now_moving;
    reason = hdop_reject_no_anchor;
  }

  -- The report of a fix as it came, which is emitted.
  abbrev pub report_raw : Fix → Float → Bool → Reason → GpsFilterResult
  report_raw fix speed now_moving why = record {
    latitude = fix.latitude;
    longitude = fix.longitude;
    speed_kmh = speed;
    is_pinned = false;
    emit = true;
    is_moving = now_moving;
    reason = why;
  }

  -- `(now - last_emit) >= keepalive`, with both tests before it.
  unfoldable pub keepalive_due : GpsFilterConfig → Option Float → Float → Bool
  keepalive_due cfg none now = false
  keepalive_due cfg (some last) now =
      lt (lit 0) cfg.keepalive_seconds && le cfg.keepalive_seconds (sub now last)

  -- Anchors at the fix: the first fix, and every arrival.
  abbrev pub anchor_at : GpsTrackFilter → Fix → GpsTrackFilter
  anchor_at f fix = record f {
    state = some stationary;
    anchor_lat = some fix.latitude;
    anchor_lon = some fix.longitude;
    last_emit_monotonic = some fix.now_monotonic;
  }

  -- The report while parked. The distance to the anchor is taken first, so a missing coordinate has
  -- raised before; the two last clauses keep that result.
  unfoldable pub report_pinned : Option Float → Option Float → Float → Bool → Result GpsFilterResult
  report_pinned (some lat) (some lon) speed is_due = ok (record {
    latitude = lat;
    longitude = lon;
    speed_kmh = speed;
    is_pinned = true;
    emit = is_due;
    is_moving = false;
    reason = if is_due then keepalive else pinned;
  })
  report_pinned (some lat) none speed is_due = raise type_error
  report_pinned none lon speed is_due = raise type_error
