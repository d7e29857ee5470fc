-- ===== src/Gps/Process/Reports.antt =====
-- telematics-edge/gps_filter.py: what one fix's report says, on every branch of `process`.
use smart_trucks.Base.{
  Bool, true, false, Option, none, some, ◌≡◌, refl, arith, Bool-cases, inl, inr, ◌⊎◌, ◌&&◌, not,
  if◌then◌else◌,
}
use smart_trucks.Base.Result.{Result, ok, raise}
use smart_trucks.Base.Float.{FloatOps}
use smart_trucks.Gps.Filter.{
  Mode, stationary, GpsFilterResult, GpsTrackFilter, Fix, distance_from, poor_hdop, is_moving_state,
  report_rejected,
}
use smart_trucks.Gps.Process.Invariant.{IsValid, Returns, process-Returns}
use smart_trucks.Gps.Process.{process_stationary, process_moving, process_in, process}

module _ (fl : FloatOps) where
  -- A raw report of a vehicle that is not moving: where the filter anchors.
  abbrev pub anchors_here : GpsFilterResult fl → Bool
  anchors_here r = r.emit && not r.is_pinned && not r.is_moving

  -- What a report says, against the fix and the states before and after.
  pub record IsFaithful (f : GpsTrackFilter fl) (fix : Fix fl) (f' : GpsTrackFilter fl)
      (r : GpsFilterResult fl) : Type 0 where
    -- the collector's sampling rate follows the state
    pub rate : r.is_moving ≡ is_moving_state fl f'.state
    -- the position is the anchor or the fix itself
    pub at_lat : some r.latitude ≡ (if r.is_pinned then f.anchor_lat else some fix.latitude)
    pub at_lon : some r.longitude ≡ (if r.is_pinned then f.anchor_lon else some fix.longitude)
    pub anchor_lat : f'.anchor_lat ≡ (if anchors_here r then some fix.latitude else f.anchor_lat)
    pub anchor_lon : f'.anchor_lon ≡ (if anchors_here r then some fix.longitude else f.anchor_lon)
    pub noted :
        f'.last_emit_monotonic ≡ (if r.emit then some fix.now_monotonic else f.last_emit_monotonic)
    pub quiet : (r.emit ≡ true) ⊎ (f' ≡ f)
    pub dense : (r.emit ≡ true) ⊎ (r.is_moving ≡ false) ⊎ (poor_hdop fl f.config fix.hdop ≡ true)
    pub same_config : f'.config ≡ f.config

  abbrev pub Reports :
      GpsTrackFilter fl → Fix fl → Result (GpsTrackFilter fl × GpsFilterResult fl) → Type 0
  Reports f fix (ok (f', r)) = IsFaithful f fix f' r
  Reports f fix (raise e) = Unit

  -- The call returned, in a state with its marks, with a faithful report.
  abbrev pub Delivers :
      GpsTrackFilter fl → Fix fl → Result (GpsTrackFilter fl × GpsFilterResult fl) → Type 0
  Delivers f fix (ok (f', r)) = IsValid fl f' × IsFaithful f fix f' r
  Delivers f fix (raise e) = ⊥

  process_stationary-Reports :
      (f : GpsTrackFilter fl) (fix : Fix fl) (speed : fl.Float) (fast : Bool)
      → f.state ≡ some stationary
      → Reports f fix (process_stationary fl f fix speed fast)
  unfolding process_stationary distance_from is_moving_state
  process_stationary-Reports f fix speed fast e = ground arith

  process_moving-Reports :
      (f : GpsTrackFilter fl) (fix : Fix fl) (speed : fl.Float) (fast : Bool)
      → f.state ≡ some Mode.moving
      → Reports f fix (process_moving fl f fix speed fast)
  unfolding process_moving distance_from is_moving_state
  process_moving-Reports f fix speed fast e = ground arith

  process_in-Reports :
      (m : Option Mode) (f : GpsTrackFilter fl) (fix : Fix fl)
      → f.state ≡ m
      → Reports f fix (process_in fl m f fix)
  unfolding process_in is_moving_state
  process_in-Reports none f fix e = ground arith
  process_in-Reports (some stationary) f fix e = process_stationary-Reports f fix _ _ e
  process_in-Reports (some Mode.moving) f fix e = process_moving-Reports f fix _ _ e

  process-Reports : (f : GpsTrackFilter fl) (fix : Fix fl) → Reports f fix (process fl f fix)
  unfolding process report_rejected
  process-Reports f fix = elim (Bool-cases (poor_hdop fl f.config fix.hdop)) [
    | inl poor ↦ rw poor (ground arith)
    | inr good ↦ rw good (process_in-Reports f.state f fix refl)
  ]

  Delivers-of :
      (f : GpsTrackFilter fl) (fix : Fix fl) (out : Result (GpsTrackFilter fl × GpsFilterResult fl))
      → Returns fl out
      → Reports f fix out
      → Delivers f fix out
  Delivers-of f fix (ok (f', r)) v h = (v, h)
  Delivers-of f fix (raise e) v h = v

  -- In a state that has its marks, `process` returns, keeps the marks, and reports faithfully: the
  -- moving flag is that of the new state; the position is the anchor when pinned and the fix itself
  -- otherwise; the anchor moves to the fix exactly at an emitted raw report that is not moving; the
  -- last emission is noted; a report that is not emitted leaves the filter as it was; and a moving
  -- vehicle's fix is emitted unless its HDOP is poor.
  pub process-Delivers :
      (f : GpsTrackFilter fl) (fix : Fix fl) → IsValid fl f → Delivers f fix (process fl f fix)
  process-Delivers f fix h =
      Delivers-of f fix (process fl f fix) (process-Returns fl f fix h) (process-Reports f fix)
