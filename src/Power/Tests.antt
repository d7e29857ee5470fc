-- ===== src/Power/Tests.antt =====
-- Tests of power-monitor at concrete inputs.
use smart_trucks.Base.{ℕ, true, false, ◌&&◌, none, some, [], ◌∷◌, ◌≡◌, refl, arith, if◌then◌else◌}
use smart_trucks.Base.Ticks.{tick_floats}
use smart_trucks.Base.Text.{codes}
use smart_trucks.Power.Flags.{
  Payload, Config, IsCoherent, flags-IsCoherent, status_ok, derive_power_flags,
  evaluate_shutdown_trip, evaluate_shutdown_recovery,
}
use smart_trucks.Power.Engine.{Engine, start, breaches, run}
use smart_trucks.Power.Engine.Poweroff.{
  one_request, sustained_breach_requests, IsUnrecovered, scattered_breaches_request,
}
use smart_trucks.Power.Sensor.{
  Answers, Stats, fine, read_error, sensor_round, is_fine, sensor_round_recovers,
}

abbrev settings : Config tick_floats
settings = record {
  shutdown_soc_trip_pct = 10;
  shutdown_voltage_trip_v = 3;
  shutdown_soc_recover_pct = 20;
  shutdown_voltage_recover_v = 4;
  shutdown_consecutive_samples = 2;
  sample_interval_seconds = 5;
  sample_interval_idle_seconds = 60;
  fast_sample_soc_margin_pct = 5;
  fast_sample_voltage_margin_v = 0;
}

abbrev payload_at : ℕ → ℕ → Payload tick_floats
payload_at soc volts = record {
  read_status = some (codes "ok");
  status = none;
  is_dummy = false;
  hardware_present = some true;
  ovf = false;
  current_ma = some 0;
  bus_voltage_v = some volts;
  state_of_charge_pct_estimate = some soc;
}

-- The battery alone, low; and neither low nor recovered.
abbrev low : Payload tick_floats
low = payload_at 5 3

abbrev between : Payload tick_floats
between = payload_at 15 4

abbrev engine : Engine tick_floats
engine = record {
  previous_state = none;
  low_battery_counter = 0;
  state_transitions = 0;
  shutdown_requested = false;
}

low_sample : breaches tick_floats settings low ≡ true
unfolding breaches smart_trucks.Power.Engine.state_of smart_trucks.Power.Flags.status_ok
low_sample = refl

between_keeps : breaches tick_floats settings between ≡ false
unfolding breaches smart_trucks.Power.Engine.state_of smart_trucks.Power.Flags.status_ok
between_keeps = refl

between_stays : evaluate_shutdown_recovery tick_floats settings between ≡ false
unfolding evaluate_shutdown_recovery smart_trucks.Power.Flags.status_ok
between_stays = refl

flags-IsCoherent_example : IsCoherent tick_floats low
flags-IsCoherent_example = flags-IsCoherent tick_floats low

one_request_example : (run tick_floats settings engine (low ∷ low ∷ low ∷ [])).1 ≡ (
    if (run tick_floats settings engine (low ∷ low ∷ low ∷ [])).0.shutdown_requested && true
    then 1
    else 0)
one_request_example = one_request tick_floats settings engine (low ∷ low ∷ low ∷ [])

sustained_breach_requests_example : (run tick_floats settings engine (low ∷ low ∷ [])).1 ≡ 1
sustained_breach_requests_example =
    sustained_breach_requests tick_floats settings engine low (low ∷ []) refl
      (low_sample, (low_sample, tt)) (omega arith)

low-IsUnrecovered : IsUnrecovered tick_floats settings low
unfolding evaluate_shutdown_recovery smart_trucks.Power.Flags.status_ok
low-IsUnrecovered h = refl

scattered_breaches_request_example :
    ((run tick_floats settings engine (low ∷ between ∷ low ∷ [])).1 ≡ 1)
    × ((run tick_floats settings engine (low ∷ between ∷ low ∷ [])).0.low_battery_counter ≡ 2)
unfolding breaches smart_trucks.Power.Engine.state_of smart_trucks.Power.Flags.status_ok
scattered_breaches_request_example =
    scattered_breaches_request tick_floats settings engine (low ∷ between ∷ low ∷ []) refl
      (omega arith) (low-IsUnrecovered, ((λ h. between_stays), (low-IsUnrecovered, tt)))

-- The second read after a fault comes back fine.
abbrev shaky : Answers
shaky = record {
  first_read = read_error;
  retry_read = read_error;
  calibrated = true;
  recalibrated_read = read_error;
  reinitialized = true;
  reinit_read = fine;
}

abbrev counts : Stats
counts = record { consecutive_read_failures = 3; reinit_attempts = 0; reinit_successes = 0 }

sensor_round_recovers_example :
    (is_fine (sensor_round shaky counts).status ≡ true)
    × ((sensor_round shaky counts).stats.consecutive_read_failures ≡ 0)
    × ((sensor_round shaky counts).stats.reinit_attempts ≡ 1)
sensor_round_recovers_example = sensor_round_recovers shaky counts
