-- ===== src/Power/Sensor.antt =====
-- power-monitor/main.py: `_select_next_sample_interval`, and the recovery ladder and counters of
-- `sensor_loop`. A read is its payload; the monitor's answers of one round are given.
use smart_trucks.Base.{
  ℕ, ◌+◌, ◌≤◌, Bool, true, false, ◌&&◌, ◌||◌, not, ltb, if◌then◌else◌, List, [], ◌∷◌, ◌++◌, ◌≡◌,
  arith, ◌⊎◌,
}
use smart_trucks.Base.Float.{FloatOps, or_zero}
use smart_trucks.Power.Flags.{Payload, Config, status_ok}

abbrev max_ticks : ℕ → ℕ → ℕ
max_ticks a b = if ltb a b then b else a

module _ (fl : FloatOps) where
  open fl use {le, add}

  abbrev pub near_trip : Config fl → Payload fl → Bool
  near_trip cfg p =
      le (or_zero fl p.state_of_charge_pct_estimate)
        (add cfg.shutdown_soc_trip_pct cfg.fast_sample_soc_margin_pct)
      || le (or_zero fl p.bus_voltage_v)
          (add cfg.shutdown_voltage_trip_v cfg.fast_sample_voltage_margin_v)

  -- `_select_next_sample_interval`, for numbers that parse.
  unfoldable pub select_next_sample_interval : Config fl → Bool → Payload fl → ℕ
  select_next_sample_interval cfg charging_changed p =
      if not (status_ok fl p)
      then cfg.sample_interval_seconds
      else if charging_changed
      then cfg.sample_interval_seconds
      else if near_trip cfg p
      then cfg.sample_interval_seconds
      else max_ticks cfg.sample_interval_seconds cfg.sample_interval_idle_seconds

  -- The idle rate is chosen only for a healthy sensor with no change of charging, clear of both trip
  -- margins; the interval is never shorter than the configured one, and is that one or the idle one.
  select_next_sample_interval_safe :
      (cfg : Config fl) (charging_changed : Bool) (p : Payload fl)
      → (cfg.sample_interval_seconds ≤ select_next_sample_interval cfg charging_changed p)
        × ((select_next_sample_interval cfg charging_changed p ≡ cfg.sample_interval_seconds)
            ⊎ ((select_next_sample_interval cfg charging_changed p
                  ≡ cfg.sample_interval_idle_seconds)
                × (status_ok fl p ≡ true)
                × (charging_changed ≡ false)
                × (near_trip cfg p ≡ false)))
  unfolding select_next_sample_interval
  select_next_sample_interval_safe cfg charging_changed p = ground arith

-- `str(payload.get("status", "unknown"))`
pub data Status : Type 0 where
  fine range_error read_error offline unknown : Status

abbrev pub is_fine : Status → Bool
is_fine fine = true
is_fine _ = false

-- `status in {"range_error", "read_error", "offline"}`
abbrev pub is_failure : Status → Bool
is_failure range_error = true
is_failure read_error = true
is_failure offline = true
is_failure fine = false
is_failure unknown = false

pub data RecoveryStep : Type 0 where
  transient_retry retry_success reconfigure_recalibrate recalibration_success i2c_reinitialize
        reinitialize_success :
      RecoveryStep

-- The monitor's answers in one round: the reads, `calibrate()` and `reinitialize()`.
pub record Answers : Type 0 where
  pub first_read : Status
  pub retry_read : Status
  pub calibrated : Bool
  pub recalibrated_read : Status
  pub reinitialized : Bool
  pub reinit_read : Status

-- `RuntimeStats`, as far as the ladder counts.
pub record Stats : Type 0 where
  pub consecutive_read_failures : ℕ
  pub reinit_attempts : ℕ
  pub reinit_successes : ℕ

pub record Round : Type 0 where
  pub status : Status
  pub recovered_after_reinit : Bool
  pub recovery_steps : List RecoveryStep
  pub stats : Stats

-- Step 3: a new monitor object.
unfoldable pub reinitialize : Answers → Status → List RecoveryStep → Stats → Round
reinitialize a status steps st =
    let tried = record st { reinit_attempts = st.reinit_attempts + 1 } in
    if a.reinitialized
    then (let back = record tried { reinit_successes = st.reinit_successes + 1 } in
        if is_fine a.reinit_read
        then record {
          status = a.reinit_read;
          recovered_after_reinit = true;
          recovery_steps = steps ++ i2c_reinitialize ∷ reinitialize_success ∷ [];
          stats = back;
        }
        else record {
          status = status;
          recovered_after_reinit = false;
          recovery_steps = steps ++ i2c_reinitialize ∷ [];
          stats = back;
        })
    else record {
      status = status;
      recovered_after_reinit = false;
      recovery_steps = steps ++ i2c_reinitialize ∷ [];
      stats = tried;
    }

-- The ladder: a retry, a recalibration, and a new monitor object.
unfoldable pub ladder : Answers → Stats → Round
unfolding reinitialize
ladder a st =
    if is_failure a.first_read
    then (if is_fine a.retry_read
        then record {
          status = a.retry_read;
          recovered_after_reinit = false;
          recovery_steps = transient_retry ∷ retry_success ∷ [];
          stats = st;
        }
        else if a.calibrated && is_fine a.recalibrated_read
        then record {
          status = a.recalibrated_read;
          recovered_after_reinit = false;
          recovery_steps = transient_retry ∷ reconfigure_recalibrate ∷ recalibration_success ∷ [];
          stats = st;
        }
        else reinitialize a a.first_read (transient_retry ∷ reconfigure_recalibrate ∷ []) st)
    else record {
      status = a.first_read;
      recovered_after_reinit = false;
      recovery_steps = [];
      stats = st;
    }

-- The failure counter behind the ladder.
unfoldable pub sensor_round : Answers → Stats → Round
unfolding ladder
sensor_round a st =
    let r = ladder a st in
    record r {
      stats = record (r.stats) {
        consecutive_read_failures =
            if is_fine r.status then 0 else r.stats.consecutive_read_failures + 1;
      };
    }

-- Some read that the round may make came back fine.
abbrev pub some_read_fine : Answers → Bool
some_read_fine a =
    is_fine a.first_read
    || (is_failure a.first_read
        && (is_fine a.retry_read
            || (a.calibrated && is_fine a.recalibrated_read)
            || (a.reinitialized && is_fine a.reinit_read)))

-- A round ends with a good status exactly when the first read, or after a failure one of the ladder's
-- reads, is good; then the failure counter is 0, and otherwise one more; and a new monitor object is
-- tried only after the retry and the recalibration have both failed.
pub sensor_round_recovers :
    (a : Answers) (st : Stats)
    → (is_fine (sensor_round a st).status ≡ some_read_fine a)
      × ((sensor_round a st).stats.consecutive_read_failures
          ≡ (if some_read_fine a then 0 else st.consecutive_read_failures + 1))
      × ((sensor_round a st).stats.reinit_attempts ≡ (
          if is_failure a.first_read
            && not (is_fine a.retry_read)
            && not (a.calibrated && is_fine a.recalibrated_read)
          then st.reinit_attempts + 1
          else st.reinit_attempts))
unfolding sensor_round
sensor_round_recovers a st = (ground arith, ground arith, ground arith)
