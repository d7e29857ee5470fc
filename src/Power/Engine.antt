-- ===== src/Power/Engine.antt =====
-- power-monitor/main.py: `state_engine_loop`, one event at a time. The row insert and the poweroff
-- command are calls out: an insert that fails is logged, and the command's answer is only logged.
pub mod Poweroff
use smart_trucks.Base.{
  ℕ, suc, ◌+◌, Bool, true, false, ◌&&◌, not, leb, ltb, Option, none, some, if◌then◌else◌, List, [],
  ◌∷◌, ◌==◌,
}
use smart_trucks.Base.Float.{FloatOps}
use smart_trucks.Power.Flags.{
  PowerState, sensor_fault, overflow_fault, brownout_risk, charging, discharging, battery_only,
  external_input_present, idle, Payload, Config, derive_power_flags, derive_power_state,
  evaluate_shutdown_trip, evaluate_shutdown_recovery,
}

abbrev pub state_index : PowerState → ℕ
state_index sensor_fault = 0
state_index overflow_fault = 1
state_index brownout_risk = 2
state_index charging = 3
state_index discharging = 4
state_index battery_only = 5
state_index external_input_present = 6
state_index idle = 7

-- `previous_state is not None and current_state != previous_state`
abbrev pub changed : Option PowerState → PowerState → Bool
changed none current = false
changed (some previous) current = not (state_index previous == state_index current)

module _ (fl : FloatOps) where
  -- The loop's variables, `stats.state_transitions` and `stats.shutdown_requested`.
  pub record Engine : Type 0 where
    pub previous_state : Option PowerState
    pub low_battery_counter : ℕ
    pub state_transitions : ℕ
    pub shutdown_requested : Bool

  unfoldable pub start : Engine
  start = record {
    previous_state = none;
    low_battery_counter = 0;
    state_transitions = 0;
    shutdown_requested = false;
  }

  -- The state that the loop derives from a payload.
  unfoldable pub state_of : Payload fl → PowerState
  unfolding derive_power_flags derive_power_state
  state_of p = derive_power_state (derive_power_flags fl p)

  unfoldable pub breaches : Config fl → Payload fl → Bool
  unfolding evaluate_shutdown_trip
  breaches cfg p = elim (evaluate_shutdown_trip fl cfg p (state_of p)) [
    | none ↦ false
    | some reasons ↦ true
  ]

  -- One event: the loop's state, and whether the host is asked to power off.
  unfoldable pub step : Config fl → Engine → Payload fl → Engine × Bool
  unfolding evaluate_shutdown_recovery
  step cfg e p =
      let current = state_of p in
      let e1 = record e {
        previous_state = some current;
        state_transitions =
            if changed e.previous_state current
            then e.state_transitions + 1
            else e.state_transitions;
      } in
      if breaches cfg p
      then (let counter = e.low_battery_counter + 1 in
          let fires = leb cfg.shutdown_consecutive_samples counter && not e.shutdown_requested in
          (
            record e1 {
              low_battery_counter = counter;
              shutdown_requested = if fires then true else e.shutdown_requested;
            },
            fires,
          ))
      else if evaluate_shutdown_recovery fl cfg p
      then (record e1 { low_battery_counter = 0 }, false)
      else (e1, false)

  -- The loop over a queue of events: the state, and the number of poweroff requests.
  unfoldable pub run : Config fl → Engine → List (Payload fl) → Engine × ℕ
  run cfg e [] = (e, 0)
  run cfg e (p ∷ ps) =
      let out = step cfg e p in
      let rest = run cfg out.0 ps in (rest.0, if out.1 then suc rest.1 else rest.1)
