-- ===== src/Collector/Parked.antt =====
-- telematics-edge/main.py: parked mode, `_parked_scan_cycle` and the loop of `parked_scan_worker`, on the shared database.
use smart_trucks.Base.{
  ℕ, Bool, true, false, ◌&&◌, ◌||◌, not, Option, none, some, if◌then◌else◌, any_of, ◌≡◌, arith,
}
use smart_trucks.Base.Text.{Text, codes}
use smart_trucks.Base.Float.{FloatOps}
use smart_trucks.Anchor.Json.{Json, integer, object, Fields, get_or, get_none, truthy}
use smart_trucks.Db.{Database}
use smart_trucks.Db.Purge.{is_beacon, pop_beacon_wake_signal}

-- The fields of `RuntimeState` that parked mode uses.
pub record Parking : Type 0 where
  pub parked_mode : Bool
  pub park_wake : Bool  -- park_wake_event
  pub wifi_connected : Bool

-- `_power_payload`
abbrev pub power_payload : Option (Text × Json) → Fields
power_payload none = Fields.end
power_payload (some (occurred_at, object fs)) = fs
power_payload (some (occurred_at, v)) = Fields.end

abbrev no_fields : Fields → Bool
no_fields Fields.end = true
no_fields (Fields.field k v fs) = false

abbrev pub is_charging : Fields → Bool
is_charging fs = truthy (get_none (codes "is_charging") fs)

module _ (fl : FloatOps) (to_float : Json → fl.Float) where
  open fl use {Float, lit, lt}

  abbrev soc_of : Fields → Float
  soc_of fs = to_float (get_or (codes "state_of_charge_pct_estimate") (integer false 100) fs)

  -- `_adaptive_parked_sleep_seconds`, where the state of charge is a number
  unfoldable pub adaptive_parked_sleep_seconds : Option (Text × Json) → ℕ
  adaptive_parked_sleep_seconds power =
      let fs = power_payload power in
      if no_fields fs || is_charging fs
      then 50
      else if lt (soc_of fs) (lit 10)
      then 300
      else if lt (soc_of fs) (lit 25)
      then 120
      else 50

-- What a cycle meets: whether the truck is active, SQLite's answers to the pop, the power snapshot, the probe.
pub record Answers : Type 0 where
  pub is_active : Bool
  pub is_readable : Bool
  pub is_writable : Bool
  pub snapshot : Option (Text × Json)
  pub is_connected : Bool

abbrev pub woken : Parking → Parking
woken p = record p { parked_mode = false; park_wake = true }

module _ {F P : Type 0} where
  -- Behind the pop: the charger, and then the network.
  abbrev pub after_pop : Answers → Parking → Database F P × Bool → Parking × Database F P
  after_pop a p (db, true) = (woken p, db)
  after_pop a p (db, false) =
      if is_charging (power_payload a.snapshot)
      then (woken p, db)
      else if a.is_connected
      then (record (woken p) { wifi_connected = true }, db)
      else (p, db)

  -- `_parked_scan_cycle`
  unfoldable pub parked_scan_cycle : Answers → Parking → Database F P → Parking × Database F P
  parked_scan_cycle a p db =
      if a.is_active
      then (woken p, db)
      else after_pop a p (pop_beacon_wake_signal a.is_readable a.is_writable db)

  -- One turn of `parked_scan_worker` in parked mode, by whether the event came before the sleep's end.
  unfoldable pub parked_turn : Bool → Answers → Parking → Database F P → Parking × Database F P
  unfolding parked_scan_cycle
  parked_turn woke a p db =
      if not p.parked_mode
      then (record p { park_wake = false }, db)
      else if p.park_wake || woke
      then (
        record {
          parked_mode = false;
          park_wake = false;
          wifi_connected = if a.is_connected then true else p.wifi_connected;
        },
        db,
      )
      else parked_scan_cycle a p db

  -- A beacon's signal that SQLite lets the cycle take.
  abbrev pub beacon_taken : Answers → Database F P → Bool
  beacon_taken a db = a.is_readable && any_of is_beacon db.wake_signals && a.is_writable

  -- The reasons to wake.
  abbrev pub wakes : Answers → Database F P → Bool
  wakes a db =
      a.is_active || beacon_taken a db || is_charging (power_payload a.snapshot) || a.is_connected

  -- A cycle in parked mode leaves it exactly if the truck is active, or a beacon's signal is taken, or the battery
  -- is charging, or the network is up; it sets the wake event exactly then; and a truck that is active leaves the
  -- signals as they are.
  parked_scan_cycle-wakes :
      (a : Answers) (p : Parking) (db : Database F P)
      → p.parked_mode ≡ true
      → ((parked_scan_cycle a p db).0.parked_mode ≡ not (wakes a db))
        × ((parked_scan_cycle a p db).0.park_wake ≡ (p.park_wake || wakes a db))
        × (a.is_active ≡ true → (parked_scan_cycle a p db).1 ≡ db)
  unfolding parked_scan_cycle pop_beacon_wake_signal
  parked_scan_cycle-wakes a p db h = ground arith
