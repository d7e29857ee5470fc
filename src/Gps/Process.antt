-- ===== src/Gps/Process.antt =====
-- telematics-edge/gps_filter.py: `GpsTrackFilter.process`, one fix at a time, and a run of fixes.
pub mod Invariant
pub mod Reports
pub mod Parked
use smart_trucks.Base.{
  Bool, true, false, ◌&&◌, ◌||◌, not, Option, none, some, if◌then◌else◌, List, [], ◌∷◌,
}
use smart_trucks.Base.Result.{Result, ok, ◌>>=◌}
use smart_trucks.Base.Float.{FloatOps, or_zero}
use smart_trucks.Gps.Filter
use smart_trucks.Gps.Filter.{
  Mode, stationary, Reason, first_fix, depart, arrive, GpsFilterConfig, GpsFilterResult,
  GpsTrackFilter, Fix, distance_from, is_moving_state, poor_hdop, report_rejected, report_raw,
  keepalive_due, anchor_at, report_pinned,
}

module _ (fl : FloatOps) where
  open fl use {Float, lit, sub, lt, le}

  -- `GpsTrackFilter(config)`
  unfoldable pub new_filter : GpsFilterConfig fl → GpsTrackFilter fl
  new_filter cfg = record {
    config = cfg;
    state = none;
    anchor_lat = none;
    anchor_lon = none;
    progress_lat = none;
    progress_lon = none;
    last_progress_monotonic = lit 0;
    last_emit_monotonic = none;
  }

  -- Once the distance to the anchor is known: depart, or stay pinned.
  unfoldable pub park_or_depart :
      GpsTrackFilter fl
      → Fix fl
      → Float
      → Bool
      → Float
      → Result (GpsTrackFilter fl × GpsFilterResult fl)
  unfolding keepalive_due report_pinned
  park_or_depart f fix speed moving_speed distance_m =
      if moving_speed && lt f.config.stationary_radius_m distance_m
      then ok (
        record f {
          state = some Mode.moving;
          progress_lat = some fix.latitude;
          progress_lon = some fix.longitude;
          last_progress_monotonic = fix.now_monotonic;
          last_emit_monotonic = some fix.now_monotonic;
        },
        report_raw fl fix speed true depart,
      )
      else (let is_due = keepalive_due fl f.config f.last_emit_monotonic fix.now_monotonic in
          report_pinned fl f.anchor_lat f.anchor_lon speed is_due >>= λ report. ok (
            record f {
              last_emit_monotonic =
                  if is_due then some fix.now_monotonic else f.last_emit_monotonic;
            },
            report,
          ))

  unfoldable pub process_stationary :
      GpsTrackFilter fl → Fix fl → Float → Bool → Result (GpsTrackFilter fl × GpsFilterResult fl)
  unfolding park_or_depart
  process_stationary f fix speed moving_speed =
      distance_from fl f.anchor_lat f.anchor_lon fix.latitude fix.longitude
      >>= park_or_depart f fix speed moving_speed

  -- `if progressed >= cfg.min_track_distance_m`: the progress mark moves to the fix.
  unfoldable pub note_progress : GpsTrackFilter fl → Fix fl → Float → GpsTrackFilter fl
  note_progress f fix progressed =
      if le f.config.min_track_distance_m progressed
      then record f {
        progress_lat = some fix.latitude;
        progress_lon = some fix.longitude;
        last_progress_monotonic = fix.now_monotonic;
      }
      else f

  unfoldable pub move_or_arrive :
      GpsTrackFilter fl → Fix fl → Float → Bool → GpsTrackFilter fl × GpsFilterResult fl
  move_or_arrive f fix speed moving_speed =
      let no_progress =
        le f.config.stationary_hold_seconds (sub fix.now_monotonic f.last_progress_monotonic) in
      if not moving_speed || no_progress
      then (anchor_at fl f fix, report_raw fl fix speed false arrive)
      else (
        record f { last_emit_monotonic = some fix.now_monotonic },
        report_raw fl fix speed true Reason.moving,
      )

  unfoldable pub process_moving :
      GpsTrackFilter fl → Fix fl → Float → Bool → Result (GpsTrackFilter fl × GpsFilterResult fl)
  unfolding note_progress move_or_arrive
  process_moving f fix speed moving_speed =
      distance_from fl f.progress_lat f.progress_lon fix.latitude fix.longitude >>= λ progressed.
      ok (move_or_arrive (note_progress f fix progressed) fix speed moving_speed)

  -- The dispatch on `self._state`, after the HDOP gate.
  unfoldable pub process_in :
      Option Mode → GpsTrackFilter fl → Fix fl → Result (GpsTrackFilter fl × GpsFilterResult fl)
  unfolding process_stationary process_moving
  process_in none f fix =
      ok (anchor_at fl f fix, report_raw fl fix (or_zero fl fix.speed_kmh) false first_fix)
  process_in (some stationary) f fix =
      let speed = or_zero fl fix.speed_kmh in
      process_stationary f fix speed (le f.config.stationary_speed_kmh speed)
  process_in (some Mode.moving) f fix =
      let speed = or_zero fl fix.speed_kmh in
      process_moving f fix speed (le f.config.stationary_speed_kmh speed)

  -- `process`
  unfoldable pub process :
      GpsTrackFilter fl → Fix fl → Result (GpsTrackFilter fl × GpsFilterResult fl)
  unfolding process_in poor_hdop report_rejected is_moving_state
  process f fix =
      if poor_hdop fl f.config fix.hdop
      then ok (
        f,
        report_rejected fl f.anchor_lat f.anchor_lon (or_zero fl fix.speed_kmh)
            (is_moving_state fl f.state) fix,
      )
      else process_in f.state f fix

  -- The fixes of a drive, in order, with the reports; an exception ends the run.
  unfoldable pub process_all :
      GpsTrackFilter fl → List (Fix fl) → Result (GpsTrackFilter fl × List (GpsFilterResult fl))
  process_all f [] = ok (f, [])
  process_all f (fix ∷ fixes) =
      process f fix >>= λ out. process_all out.0 fixes >>= λ rest. ok (rest.0, out.1 ∷ rest.1)
