-- ===== src/Power/Flags.antt =====
-- power-monitor/main.py: `_derive_power_flags`, `_derive_power_state` and the shutdown tests. A payload
-- is a record of its keys; a missing number reads as the default of its `get`.
use smart_trucks.Base.{
  ℕ, Bool, true, false, ◌&&◌, ◌||◌, not, Option, none, some, or_default, if◌then◌else◌, ◌≡◌, arith,
  ◌⊎◌, ◌≢◌, Bool-cases, inl, inr,
}
use smart_trucks.Base.Float.{FloatOps}
use smart_trucks.Base.Text.{Text, text_eq, codes}

pub data PowerState : Type 0 where
  sensor_fault overflow_fault brownout_risk charging discharging battery_only external_input_present
        idle :
      PowerState

pub record Flags : Type 0 where
  pub external_input_present : Bool
  pub battery_only : Bool
  pub charging : Bool
  pub discharging : Bool
  pub brownout_risk : Bool
  pub sensor_fault : Bool
  pub overflow_fault : Bool

module _ (fl : FloatOps) where
  open fl use {Float, lit, sub, div, add, lt, le}

  pub record Payload : Type 0 where
    pub read_status : Option Text
    pub status : Option Text
    pub is_dummy : Bool  -- `source` is `DummyPowerMonitor.SOURCE`
    pub hardware_present : Option Bool
    pub ovf : Bool
    pub current_ma : Option Float
    pub bus_voltage_v : Option Float
    pub state_of_charge_pct_estimate : Option Float

  pub record Config : Type 0 where
    pub shutdown_soc_trip_pct : Float
    pub shutdown_voltage_trip_v : Float
    pub shutdown_soc_recover_pct : Float
    pub shutdown_voltage_recover_v : Float
    pub shutdown_consecutive_samples : ℕ
    pub sample_interval_seconds : ℕ
    pub sample_interval_idle_seconds : ℕ
    pub fast_sample_soc_margin_pct : Float
    pub fast_sample_voltage_margin_v : Float

  abbrev neg : Float → Float
  neg x = sub (lit 0) x

  abbrev pub number : Option Float → Float
  number x = or_default x (lit 0)

  -- `payload.get("read_status", payload.get("status"))` against "ok".
  unfoldable pub status_ok : Payload → Bool
  status_ok p = elim p.read_status [
    | some t ↦ text_eq t (codes "ok")
    | none ↦ elim p.status [ some t ↦ text_eq t (codes "ok") | none ↦ false ]
  ]

  -- EXTERNAL_INPUT_PRESENT_MIN_BUS_V, 4.5, and CURRENT_FLOW_DEADBAND_MA, 20.0
  abbrev pub external_input_min_v : Float
  external_input_min_v = div (lit 45) (lit 10)

  abbrev pub deadband_ma : Float
  deadband_ma = lit 20

  -- `_derive_power_flags`
  unfoldable pub derive_power_flags : Payload → Flags
  derive_power_flags p =
      let fault = not (status_ok p) in
      let current = number p.current_ma in
      let voltage = number p.bus_voltage_v in
      let external = not fault && le external_input_min_v voltage in
      record {
        external_input_present = external;
        battery_only = not fault && not external;
        charging = not fault && external && lt deadband_ma current;
        discharging = not fault && lt current (neg deadband_ma);
        brownout_risk = not fault && le voltage (div (lit 345) (lit 100));
        sensor_fault = fault;
        overflow_fault = p.ovf;
      }

  -- `_evaluate_shutdown_trip`: the two reasons, `soc_below_threshold` and `voltage_below_threshold`, if
  -- the policy is breached.
  abbrev pub discharging_state : PowerState → Bool
  discharging_state PowerState.discharging = true
  discharging_state PowerState.brownout_risk = true
  discharging_state PowerState.battery_only = true
  discharging_state _ = false

  abbrev pub charging_state : PowerState → Bool
  charging_state PowerState.charging = true
  charging_state _ = false

  abbrev is_absent : Option Bool → Bool
  is_absent (some false) = true
  is_absent (some true) = false
  is_absent none = false

  unfoldable pub evaluate_shutdown_trip : Config → Payload → PowerState → Option (Bool × Bool)
  evaluate_shutdown_trip cfg p power_state =
      let current = number p.current_ma in
      let soc_breach = le (number p.state_of_charge_pct_estimate) cfg.shutdown_soc_trip_pct in
      let voltage_breach = le (number p.bus_voltage_v) cfg.shutdown_voltage_trip_v in
      let discharging_direction = discharging_state power_state || lt current (neg deadband_ma) in
      let charging_direction = charging_state power_state || lt deadband_ma current in
      if p.is_dummy || is_absent p.hardware_present
      then none
      else if not (status_ok p)
      then none
      else if (soc_breach || voltage_breach) && discharging_direction && not charging_direction
      then some (soc_breach, voltage_breach)
      else none

  -- `_evaluate_shutdown_recovery`
  unfoldable pub evaluate_shutdown_recovery : Config → Payload → Bool
  evaluate_shutdown_recovery cfg p =
      if not (status_ok p)
      then false
      else le cfg.shutdown_soc_recover_pct (number p.state_of_charge_pct_estimate)
        && le cfg.shutdown_voltage_recover_v (number p.bus_voltage_v)

-- `_derive_power_state`
unfoldable pub derive_power_state : Flags → PowerState
derive_power_state f =
    if f.sensor_fault
    then sensor_fault
    else if f.overflow_fault
    then overflow_fault
    else if f.brownout_risk
    then brownout_risk
    else if f.charging
    then charging
    else if f.discharging
    then discharging
    else if f.battery_only
    then battery_only
    else if f.external_input_present
    then external_input_present
    else idle

module _ (fl : FloatOps) (p : Payload fl) where
  abbrev flags : Flags
  flags = derive_power_flags fl p

  -- What the flags of any payload satisfy, and the state that they give.
  pub record IsCoherent : Type 0 where
    -- a sensor fault has no other flag but the overflow
    pub fault :
        (flags.sensor_fault ≡ false)
        ⊎ ((flags.external_input_present ≡ false)
            × (flags.battery_only ≡ false)
            × (flags.charging ≡ false)
            × (flags.discharging ≡ false)
            × (flags.brownout_risk ≡ false)
            × (derive_power_state flags ≡ sensor_fault))
    -- a working sensor sees either external input or the battery alone
    pub supply : flags.external_input_present ≡ (not flags.sensor_fault && not flags.battery_only)
    pub charge : (flags.charging ≡ false) ⊎ (flags.external_input_present ≡ true)
    -- the state `idle` is never reached
    pub never_idle : derive_power_state flags ≢ idle

  -- For every payload: a sensor fault raises no other flag than the overflow and gives the state
  -- `sensor_fault`; without one exactly one of external input and battery only holds; charging needs
  -- external input; and the state is never `idle`.
  pub flags-IsCoherent : IsCoherent
  unfolding derive_power_flags derive_power_state
  flags-IsCoherent = record {
    fault = elim (Bool-cases (status_ok fl p)) [
      | inl fine ↦ inl (ground arith)
      | inr bad ↦
          inr (ground arith, ground arith, ground arith, ground arith, ground arith, ground arith)
    ];
    supply = ground arith;
    charge = elim (Bool-cases flags.charging) [ inl c ↦ inr (ground arith) | inr c ↦ inl c ];
    never_idle = ground arith;
  }
