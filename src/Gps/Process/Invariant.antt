-- ===== src/Gps/Process/Invariant.antt =====
-- telematics-edge/gps_filter.py: which coordinates are known in which state, so that no fix makes
-- `process` raise.
use smart_trucks.Base.{
  ℕ, suc, Bool, true, false, Option, none, some, is_some, List, [], ◌∷◌, ◌≡◌, refl, arith, length,
  Bool-cases, inl, inr,
}
use smart_trucks.Base.Result.{Result, ok, raise, ◌>>=◌}
use smart_trucks.Base.Float.{FloatOps}
use smart_trucks.Gps.Filter.{
  Mode, stationary, GpsFilterConfig, GpsFilterResult, GpsTrackFilter, Fix, distance_from, poor_hdop,
}
use smart_trucks.Gps.Process.{
  new_filter, process_stationary, process_moving, process_in, process, process_all,
}

module _ (fl : FloatOps) where
  -- Each state has the coordinates that it reads: an anchor once a fix has come, and a progress mark
  -- while moving.
  abbrev pub HasMarks : Option Mode → GpsTrackFilter fl → Type 0
  HasMarks none f = (is_some f.anchor_lat ≡ false) × (is_some f.anchor_lon ≡ false)
  HasMarks (some stationary) f =
      (is_some f.anchor_lat ≡ true)
      × (is_some f.anchor_lon ≡ true)
      × (is_some f.last_emit_monotonic ≡ true)
  HasMarks (some Mode.moving) f =
      (is_some f.anchor_lat ≡ true)
      × (is_some f.anchor_lon ≡ true)
      × (is_some f.progress_lat ≡ true)
      × (is_some f.progress_lon ≡ true)
      × (is_some f.last_emit_monotonic ≡ true)

  abbrev pub IsValid : GpsTrackFilter fl → Type 0
  IsValid f = HasMarks f.state f

  -- A call that returned, in a valid state, with a report that agrees with the new state.
  abbrev pub Returns : Result (GpsTrackFilter fl × GpsFilterResult fl) → Type 0
  Returns (ok (f, report)) = IsValid f
  Returns (raise e) = ⊥

  process_stationary-Returns :
      (f : GpsTrackFilter fl) (fix : Fix fl) (speed : fl.Float) (fast : Bool)
      → f.state ≡ some stationary
      → HasMarks (some stationary) f
      → Returns (process_stationary fl f fix speed fast)
  unfolding process_stationary distance_from
  process_stationary-Returns f fix speed fast e h = ground arith

  process_moving-Returns :
      (f : GpsTrackFilter fl) (fix : Fix fl) (speed : fl.Float) (fast : Bool)
      → f.state ≡ some Mode.moving
      → HasMarks (some Mode.moving) f
      → Returns (process_moving fl f fix speed fast)
  unfolding process_moving distance_from
  process_moving-Returns f fix speed fast e h = ground arith

  process_in-Returns :
      (m : Option Mode) (f : GpsTrackFilter fl) (fix : Fix fl)
      → f.state ≡ m
      → HasMarks m f
      → Returns (process_in fl m f fix)
  unfolding process_in
  process_in-Returns none f fix e h = ground arith
  process_in-Returns (some stationary) f fix e h = process_stationary-Returns f fix _ _ e h
  process_in-Returns (some Mode.moving) f fix e h = process_moving-Returns f fix _ _ e h

  pub process-Returns :
      (f : GpsTrackFilter fl) (fix : Fix fl) → IsValid f → Returns (process fl f fix)
  unfolding process
  process-Returns f fix h = elim (Bool-cases (poor_hdop fl f.config fix.hdop)) [
    | inl poor ↦ rw poor h
    | inr good ↦ rw good (process_in-Returns f.state f fix refl h)
  ]

  new_filter-IsValid : (cfg : GpsFilterConfig fl) → IsValid (new_filter fl cfg)
  unfolding new_filter
  new_filter-IsValid cfg = (refl, refl)

  abbrev pub ReturnsAll : Result (GpsTrackFilter fl × List (GpsFilterResult fl)) → ℕ → Type 0
  ReturnsAll (ok (f, reports)) n = IsValid f × (length reports ≡ n)
  ReturnsAll (raise e) n = ⊥

  ReturnsAll-cons :
      (r : GpsFilterResult fl) (n : ℕ)
      (rest : Result (GpsTrackFilter fl × List (GpsFilterResult fl)))
      → ReturnsAll rest n
      → ReturnsAll (rest >>= λ out. ok (out.0, r ∷ out.1)) (suc n)
  ReturnsAll-cons r n (ok (f, reports)) h = (h.0, omega (arith, h.1))
  ReturnsAll-cons r n (raise e) h = h

  -- From a state that has its marks, no drive makes the filter raise: every fix gets its report, and
  -- the state at the end has its marks again.
  process_all_total :
      (f : GpsTrackFilter fl) (fixes : List (Fix fl))
      → IsValid f
      → ReturnsAll (process_all fl f fixes) (length fixes)
  unfolding process_all
  process_all_total f [] h = (h, refl)
  process_all_total f (fix ∷ fixes) h =
      go (process fl f fix) (process-Returns f fix h) (λ g. process_all_total g fixes)
    where
      go :
          (out : Result (GpsTrackFilter fl × GpsFilterResult fl))
          → Returns out
          → ((g : GpsTrackFilter fl)
              → IsValid g
              → ReturnsAll (process_all fl g fixes) (length fixes))
          → ReturnsAll
              (out >>= λ out. process_all fl out.0 fixes >>= λ rest. ok (rest.0, out.1 ∷ rest.1))
              (suc (length fixes))
      go (ok (g, r)) v ih = ReturnsAll-cons r (length fixes) (process_all fl g fixes) (ih g v)
      go (raise e) v ih = v
