-- ===== src/Gps/Process/Parked.antt =====
-- telematics-edge/gps_filter.py: a parked vehicle. No drift of the receiver makes a starburst.
use smart_trucks.Base.{
  Bool, true, false, ◌&&◌, ◌||◌, some, if◌then◌else◌, List, [], ◌∷◌, ◌≡◌, arith, All, not,
}
use smart_trucks.Base.Result.{Result, ok, raise, ◌>>=◌}
use smart_trucks.Base.Float.{FloatOps, or_zero}
use smart_trucks.Gps.Filter.{
  stationary, GpsFilterConfig, GpsFilterResult, GpsTrackFilter, Fix, haversine_m, distance_from,
  poor_hdop, is_moving_state, report_rejected,
}
use smart_trucks.Gps.Process.{process_in, process, process_all}

module _ (fl : FloatOps) (cfg : GpsFilterConfig fl) (lat lon : fl.Float) where
  open fl use {Float, lit, lt, le}

  -- The filter stands parked at (lat, lon).
  pub record IsParked (f : GpsTrackFilter fl) : Type 0 where
    pub same_config : f.config ≡ cfg
    pub parked : f.state ≡ some stationary
    pub at_lat : f.anchor_lat ≡ some lat
    pub at_lon : f.anchor_lon ≡ some lon

  -- Moving speed and displacement beyond the drift radius, both.
  abbrev pub departs : Fix fl → Bool
  departs fix =
      le cfg.stationary_speed_kmh (or_zero fl fix.speed_kmh)
      && lt cfg.stationary_radius_m (haversine_m fl lat lon fix.latitude fix.longitude)

  -- Drift: a poor fix, or one that reads as parked.
  abbrev pub drifts : Fix fl → Bool
  drifts fix = if poor_hdop fl cfg fix.hdop then true else not (departs fix)

  abbrev pub IsPinnedHere : GpsFilterResult fl → Type 0
  IsPinnedHere r =
      (r.is_pinned ≡ true) × (r.latitude ≡ lat) × (r.longitude ≡ lon) × (r.is_moving ≡ false)

  abbrev Stays : Result (GpsTrackFilter fl × GpsFilterResult fl) → Type 0
  Stays (ok (f', r)) =
      IsParked f' × IsPinnedHere r × (lt (lit 0) cfg.keepalive_seconds || not r.emit ≡ true)
  Stays (raise e) = ⊥

  process-Stays :
      (f : GpsTrackFilter fl) (fix : Fix fl)
      → IsParked f
      → drifts fix ≡ true
      → Stays (process fl f fix)
  unfolding process poor_hdop process_in distance_from report_rejected is_moving_state
  process-Stays f fix p d = ground arith

  -- Every report of a drive is pinned here, and none is emitted but as a keep-alive.
  abbrev pub StaysAll : Result (GpsTrackFilter fl × List (GpsFilterResult fl)) → Type 0
  StaysAll (ok (f', reports)) =
      IsParked f'
      × All IsPinnedHere reports
      × All (λ r. lt (lit 0) cfg.keepalive_seconds || not r.emit ≡ true) reports
  StaysAll (raise e) = ⊥

  StaysAll-cons :
      (r : GpsFilterResult fl) (rest : Result (GpsTrackFilter fl × List (GpsFilterResult fl)))
      → IsPinnedHere r
      → (lt (lit 0) cfg.keepalive_seconds || not r.emit) ≡ true
      → StaysAll rest
      → StaysAll (rest >>= λ out. ok (out.0, r ∷ out.1))
  StaysAll-cons r (ok (f, reports)) h q (p, hs, qs) = (p, (h, hs), (q, qs))
  StaysAll-cons r (raise e) h q k = k

  after_Stays :
      (out : Result (GpsTrackFilter fl × GpsFilterResult fl)) (fixes : List (Fix fl))
      → Stays out
      → ((g : GpsTrackFilter fl) → IsParked g → StaysAll (process_all fl g fixes))
      → StaysAll (out >>= λ out. process_all fl out.0 fixes >>= λ rest. ok (rest.0, out.1 ∷ rest.1))
  after_Stays (ok (g, r)) fixes (p, h, q) later =
      StaysAll-cons r (process_all fl g fixes) h q (later g p)
  after_Stays (raise e) fixes v later = v

  -- A filter that is parked at (lat, lon), over any number of fixes each of which has a poor HDOP, reads
  -- as parked or lies within the drift radius: no exception, still parked there at the end, every
  -- report pinned at (lat, lon) and not moving, and no point emitted unless the keep-alive is on.
  pub parked_no_starburst :
      (f : GpsTrackFilter fl) (fixes : List (Fix fl))
      → IsParked f
      → All (λ fix. drifts fix ≡ true) fixes
      → StaysAll (process_all fl f fixes)
  unfolding process_all
  parked_no_starburst f [] p ds = (p, tt, tt)
  parked_no_starburst f (fix ∷ fixes) p (d, ds) =
      after_Stays (process fl f fix) fixes (process-Stays f fix p d)
        λ g q. parked_no_starburst g fixes q ds

  abbrev pub StateAfter : Result (GpsTrackFilter fl × GpsFilterResult fl) → Bool → Type 0
  StateAfter (ok (f', r)) b = is_moving_state fl f'.state ≡ b
  StateAfter (raise e) b = ⊥

  -- A parked filter moves after a fix exactly when the fix is no drift: its HDOP is acceptable, its
  -- speed reads as moving, and it lies beyond the drift radius.
  pub departs_iff_no_drift :
      (f : GpsTrackFilter fl) (fix : Fix fl)
      → IsParked f
      → StateAfter (process fl f fix) (not (drifts fix))
  unfolding process poor_hdop process_in distance_from report_rejected is_moving_state
  departs_iff_no_drift f fix p = ground arith
