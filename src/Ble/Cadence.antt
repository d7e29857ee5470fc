-- ===== src/Ble/Cadence.antt =====
-- ble-sensor/main.py: the newest power reading and `_effective_scan_cadence`. `float` of a JSON value and `json.loads` are
-- parameters.
use smart_trucks.Base.{ℕ, Bool, false, ◌||◌, not, Option, none, some, if◌then◌else◌, List, [], ◌∷◌}
use smart_trucks.Base.Text.{Text, codes}
use smart_trucks.Base.Float.{FloatOps}
use smart_trucks.Base.Sort.{sort_by}
use smart_trucks.Anchor.Json.{Json, null, object, get_none, truthy}
use smart_trucks.Db.Queries.{PowerReading, newer}

-- What the cadence reads of a power reading.
pub record Power : Type 0 where
  pub soc_pct : Json
  pub is_charging : Bool

abbrev power_fields : Option Json → Option Power
power_fields (some (object fs)) = some (record {
  soc_pct = get_none (codes "state_of_charge_pct_estimate") fs;
  is_charging = truthy (get_none (codes "is_charging") fs);
})
power_fields _ = none

abbrev power_of : (Text → Option Json) → List PowerReading → Option Power
power_of loads [] = none
power_of loads (r ∷ rows) = power_fields (loads r.payload)

-- `_read_latest_power_from_telematics_db`: none for no file, an SQLite error, no row, or no JSON object.
unfoldable pub read_latest_power : (Text → Option Json) → Bool → List PowerReading → Option Power
read_latest_power loads readable rows =
    if readable then power_of loads (sort_by newer rows) else none

module _ (fl : FloatOps) where
  open fl use {Float, lt}

  pub record CadenceConfig : Type 0 where
    pub post_interval_seconds : ℕ
    pub scan_duration_seconds : Float
    pub battery_saver_enabled : Bool
    pub poll_interval_low_battery_seconds : ℕ
    pub poll_interval_discharging_seconds : ℕ
    pub low_battery_soc_pct : Float
    pub scan_duration_low_power_seconds : Float

  -- A state of charge that is a number below the limit; a malformed one is not.
  abbrev pub is_low : CadenceConfig → Option Float → Bool
  is_low cfg none = false
  is_low cfg (some soc) = lt soc cfg.low_battery_soc_pct

  abbrev soc_value : (Json → Option Float) → Json → Option Float
  soc_value to_float null = none
  soc_value to_float v = to_float v

  unfoldable pub effective_scan_cadence :
      (Json → Option Float) → CadenceConfig → Option Power → ℕ × Float
  effective_scan_cadence to_float cfg none = (cfg.post_interval_seconds, cfg.scan_duration_seconds)
  effective_scan_cadence to_float cfg (some p) =
      if not cfg.battery_saver_enabled || p.is_charging
      then (cfg.post_interval_seconds, cfg.scan_duration_seconds)
      else if is_low cfg (soc_value to_float p.soc_pct)
      then (cfg.poll_interval_low_battery_seconds, cfg.scan_duration_low_power_seconds)
      else (cfg.poll_interval_discharging_seconds, cfg.scan_duration_low_power_seconds)
