-- ===== src/Collector/Track.antt =====
-- telematics-edge/main.py: what a GPS reading leaves in `RuntimeState`, and `gps_collector_worker`, which filters it and
-- queues track points. The clocks, a reader's age and the end of each write's attempts are a tick's answers;
-- `f"{n:08d}"` and `datetime.isoformat` are parameters.
pub mod Sequence
use smart_trucks.Base.{
  ℕ, ◌+◌, Bool, true, false, ◌&&◌, not, leb, Option, none, some, or_default, if◌then◌else◌, List,
  [], ◌∷◌, ◌++◌,
}
use smart_trucks.Base.Text.{Text, codes, text_eq, join}
use smart_trucks.Base.Float.{FloatOps}
use smart_trucks.Base.Result.{Result, ok, raise}
use smart_trucks.Gps.Filter.{GpsTrackFilter, GpsFilterResult, Fix}
use smart_trucks.Gps.Process.{process}
use smart_trucks.Nmea.{Reading, is_valid_fix}
use smart_trucks.Retry.{Attempt}
use smart_trucks.Db.{Database, RetryCount, GpsColumns, insert_gps_point}

-- The fix is not the last one processed.
abbrev pub is_new : Text → Option Text → Bool
is_new token none = true
is_new token (some last) = not (text_eq token last)

module _ (fl : FloatOps) where
  open fl use {Float, lit, div}

  -- `latest_valid_gps` and `stabilized_gps`, whose `fix_status` is "locked".
  pub record LockedGps : Type 0 where
    pub device : Text
    pub latitude : Float
    pub longitude : Float
    pub altitude_m : Option Float
    pub speed_kmh : Option Float
    pub hdop : Option Float
    pub heading : Option Float
    pub satellites : ℕ
    pub gps_timestamp : Option Text

  -- The fields of `RuntimeState` that the workers share.
  pub record Runtime : Type 0 where
    pub last_gps_fix_utc : Option Text
    pub gps_reader_ok : Bool
    pub latest_valid_gps : Option LockedGps
    pub stabilized_gps : Option LockedGps
    pub last_locked_gps_point_utc : Option Text
    pub local_sequence : ℕ

  abbrev noted :
      Text → Text → Option Text → Option Float → Option Float → Reading fl → Runtime → Runtime
  noted device now timestamp (some lat) (some lon) r s = record s {
    last_gps_fix_utc = some now;
    gps_reader_ok = true;
    latest_valid_gps = some (record {
      device = device;
      latitude = lat;
      longitude = lon;
      altitude_m = r.altitude;
      speed_kmh = r.speed_kmh;
      hdop = r.hdop;
      heading = r.heading;
      satellites = r.satellites;
      gps_timestamp = timestamp;
    });
  }
  noted device now timestamp _ _ r s = s

  -- `on_reading`
  unfoldable pub on_reading : Text → Text → Option Text → Reading fl → Runtime → Runtime
  on_reading device now timestamp r s =
      if is_valid_fix fl r.latitude r.longitude r
      then noted device now timestamp r.latitude r.longitude r s
      else s

  -- `get_latest_gps`: the warehouse's own place, a fix, or none.
  pub data Gps : Type 0 where
    warehouse_config : Option Float → Option Float → Gps
    fix : LockedGps → Gps
    searching : Gps

  abbrev fix_or : Option LockedGps → Gps → Gps
  fix_or none g = g
  fix_or (some l) g = fix l

  unfoldable pub get_latest_gps : Bool → Option Float → Option Float → Runtime → Gps
  get_latest_gps is_warehouse lat lon s =
      if is_warehouse
      then warehouse_config lat lon
      else fix_or s.stabilized_gps (fix_or s.latest_valid_gps searching)

  -- A location with its aliases `lat`, `lng`, `lon` of the coordinates.
  pub record Located : Type 0 where
    pub gps : Gps
    pub lat : Option Float
    pub lng : Option Float
    pub lon : Option Float
    pub speed_knots : Option Float

  abbrev knots : Option Float → Option Float
  knots none = none
  knots (some v) = some (div v (div (lit 1852) (lit 1000)))

  -- `build_location_payload`; `none` is the payload that only says "searching".
  unfoldable pub build_location_payload : Gps → Option Located
  build_location_payload searching = none
  build_location_payload (warehouse_config lat lon) = some (record {
    gps = warehouse_config lat lon;
    lat = lat;
    lng = lon;
    lon = lon;
    speed_knots = knots (some (lit 0));
  })
  build_location_payload (fix l) = some (record {
    gps = fix l;
    lat = some l.latitude;
    lng = some l.longitude;
    lon = some l.longitude;
    speed_knots = knots l.speed_kmh;
  })

  -- `build_gps_track_event`
  pub record TrackEvent : Type 0 where
    pub vehicle_id : Text
    pub captured_at_utc : Text
    pub idempotency_key : Text
    pub is_pinned : Bool
    pub location : Option Located

  unfoldable pub build_gps_track_event :
      (ℕ → Text) → Text → Text → ℕ → Option Located → Bool → TrackEvent
  build_gps_track_event pad8 vehicle captured_at sequence location pinned = record {
    vehicle_id = vehicle;
    captured_at_utc = captured_at;
    idempotency_key =
        join (vehicle ∷ codes ":gps_track:" ∷ captured_at ∷ codes ":" ∷ pad8 sequence ∷ []);
    is_pinned = pinned;
    location = location;
  }

  pub record Config : Type 0 where
    pub vehicle_id : Text
    pub sample_interval : ℕ  -- gps_sample_interval_seconds
    pub moving_interval : ℕ  -- gps_moving_sample_interval_seconds
    pub retries : RetryCount

  -- What a tick meets.
  pub record Answers : Type 0 where
    pub is_parked : Bool
    pub captured_at : Text
    pub now_monotonic : Float
    pub fix_age : Option ℕ  -- `age_seconds(state.last_gps_fix_utc)`
    pub attempt : ℕ → Attempt (Unit {0})

  -- The worker's variables, the shared state and the database.
  pub record Collector (P : Type 0) : Type 0 where
    pub track_filter : GpsTrackFilter fl
    pub last_processed_fix_utc : Option Text
    pub runtime : Runtime
    pub database : Database Float P

  module _ {P : Type 0} (pad8 : ℕ → Text) (encode : TrackEvent → P) (cfg : Config) where
    abbrev stabilized : LockedGps → GpsFilterResult fl → LockedGps
    stabilized raw r = record raw {
      latitude = r.latitude;
      longitude = r.longitude;
      speed_kmh = some r.speed_kmh;
    }

    abbrev pub point_columns : LockedGps → GpsFilterResult fl → ℕ → GpsColumns Float
    point_columns raw r sequence = record {
      vehicle_id = cfg.vehicle_id;
      lat = some r.latitude;
      lon = some r.longitude;
      speed_kmh = some r.speed_kmh;
      fix_status = codes "locked";
      source_device = some raw.device;
      trip_id = none;
      local_sequence = sequence;
    }

    abbrev pub track_event : Answers → LockedGps → GpsFilterResult fl → ℕ → TrackEvent
    track_event a raw r sequence =
        build_gps_track_event pad8 cfg.vehicle_id a.captured_at sequence
          (build_location_payload (fix (stabilized raw r))) r.is_pinned

    -- `if result.emit:`
    abbrev pub emit_point : Answers → LockedGps → GpsFilterResult fl → Collector P → Collector P
    emit_point a raw r c =
        let sequence = c.runtime.local_sequence + 1 in
        record c {
          runtime = record c.runtime { local_sequence = sequence };
          database =
              insert_gps_point cfg.retries a.attempt a.captured_at (point_columns raw r sequence)
                (encode (track_event a raw r sequence)) c.database;
        }

    abbrev pub published :
        Answers → LockedGps → GpsTrackFilter fl → GpsFilterResult fl → Collector P → Collector P
    published a raw f r c = record c {
      track_filter = f;
      runtime = record c.runtime {
        stabilized_gps = some (stabilized raw r);
        last_locked_gps_point_utc = some a.captured_at;
        gps_reader_ok = true;
      };
    }

    -- A fix that the filter took: the position is published, and the point queued if it says so.
    abbrev pub publish :
        Answers → LockedGps → GpsTrackFilter fl → GpsFilterResult fl → Collector P → Collector P
    publish a raw f r c =
        if r.emit then emit_point a raw r (published a raw f r c) else published a raw f r c

    -- An exception is logged, and the fix is not tried again.
    abbrev pub filtered :
        Answers
        → LockedGps
        → Collector P
        → Result (GpsTrackFilter fl × GpsFilterResult fl)
        → Collector P × ℕ
    filtered a raw c (raise e) = (c, cfg.sample_interval)
    filtered a raw c (ok (f, r)) =
        (publish a raw f r c, if r.is_moving then cfg.moving_interval else cfg.sample_interval)

    unfoldable pub take_fix : Answers → LockedGps → Text → Collector P → Collector P × ℕ
    take_fix a raw token c =
        filtered a raw (record c { last_processed_fix_utc = some token })
          (process fl c.track_filter (record {
            latitude = raw.latitude;
            longitude = raw.longitude;
            speed_kmh = raw.speed_kmh;
            hdop = raw.hdop;
            now_monotonic = a.now_monotonic;
          }))

    -- No new fix: the reader is in order up to five minutes.
    abbrev pub no_fix : Answers → Collector P → Collector P × ℕ
    no_fix a c = (
      record c {
        runtime = record c.runtime {
          gps_reader_ok = elim a.fix_age [ none ↦ true | some age ↦ leb age 300 ];
        };
      },
      cfg.sample_interval,
    )

    abbrev pub tick_from : Answers → Option LockedGps → Option Text → Collector P → Collector P × ℕ
    tick_from a (some raw) (some token) c =
        if is_new token c.last_processed_fix_utc then take_fix a raw token c else no_fix a c
    tick_from a (some raw) none c = no_fix a c
    tick_from a none token c = no_fix a c

    -- A turn of the loop of `gps_collector_worker`, and the seconds slept.
    unfoldable pub tick : Answers → Collector P → Collector P × ℕ
    unfolding take_fix
    tick a c =
        if a.is_parked
        then (c, 5)
        else tick_from a c.runtime.latest_valid_gps c.runtime.last_gps_fix_utc c
