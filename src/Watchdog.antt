-- ===== src/Watchdog.antt =====
-- wifi-provisioner/edge_watchdog.py: the cross-service watchdog. The monotonic clock and the configured
-- seconds are ticks, and the clock never goes back; a heartbeat's age is a number of ticks too.
mod Tests
pub mod Restarts
use smart_trucks.Base.{
  ℕ, suc, ◌+◌, ◌-◌, Bool, true, false, ◌&&◌, ltb, leb, Option, none, some, if◌then◌else◌, List, [],
  ◌∷◌,
}
use smart_trucks.Base.Text.{Text, text_le}

pub record Config : Type 0 where
  pub stale_seconds : ℕ  -- watchdog_stale_seconds
  pub restart_cooldown_seconds : ℕ  -- watchdog_restart_cooldown_seconds
  pub boot_grace_seconds : ℕ  -- watchdog_boot_grace_seconds

-- `watchdog_should_restart`: `None` is no age, and never stale.
unfoldable pub watchdog_should_restart : Option ℕ → ℕ → Bool
watchdog_should_restart none stale_seconds = false
watchdog_should_restart (some age) stale_seconds = leb stale_seconds age

-- `max(heartbeats.captured_at_utc)` as the query's first row finds it.
unfoldable pub newest_heartbeat : List Text → Option Text
newest_heartbeat [] = none
newest_heartbeat (t ∷ ts) = elim (newest_heartbeat ts) [
  | none ↦ some t
  | some u ↦ if text_le u t then some t else some u
]

-- `newest_heartbeat_age_seconds`: the rows, unless the database could not be opened or queried; the
-- parser gives a time in ticks of the wall clock, if it can; the subtraction stops at 0 as `max(0.0, ...)`
-- does.
unfoldable pub newest_heartbeat_age_seconds : Option (List Text) → (Text → Option ℕ) → ℕ → Option ℕ
unfolding newest_heartbeat
newest_heartbeat_age_seconds none parse_iso_utc now = none
newest_heartbeat_age_seconds (some rows) parse_iso_utc now = elim (newest_heartbeat rows) [
  | none ↦ none
  | some [] ↦ none
  | some (c ∷ cs) ↦ elim (parse_iso_utc (c ∷ cs)) [ none ↦ none | some ts ↦ some (now - ts) ]
]

-- The watchdog's part of `State`.
pub record State : Type 0 where
  pub last_heartbeat_age : Option ℕ
  pub last_restart_monotonic : Option ℕ
  pub restart_count : ℕ

-- What a check sees: the clock, the age, and whether the Supervisor took a restart call.
pub record Check : Type 0 where
  pub now : ℕ
  pub age : Option ℕ
  pub restart_ok : Bool

-- `time.monotonic() - last < cooldown`
unfoldable pub cooling_down : Config → Option ℕ → ℕ → Bool
cooling_down cfg none now = false
cooling_down cfg (some last) now = ltb (now - last) cfg.restart_cooldown_seconds

-- One turn of the loop: the new state, and whether a restart was called.
unfoldable pub check : Config → ℕ → State → Check → State × Bool
unfolding watchdog_should_restart cooling_down
check cfg started s c =
    if ltb (c.now - started) cfg.boot_grace_seconds
    then (s, false)
    else (let s = record s { last_heartbeat_age = c.age } in
        if watchdog_should_restart c.age cfg.stale_seconds
        then (if cooling_down cfg s.last_restart_monotonic c.now
            then (s, false)
            else if c.restart_ok
            then (
              record s { last_restart_monotonic = some c.now; restart_count = s.restart_count + 1 },
              true,
            )
            else (s, true))
        else (s, false))

-- `watchdog_worker` over a list of checks: the state, and the checks at which a restart was called.
unfoldable pub worker : Config → ℕ → State → List Check → State × List Check
worker cfg started s [] = (s, [])
worker cfg started s (c ∷ cs) =
    let (s', called) = check cfg started s c in
    let rest = worker cfg started s' cs in (rest.0, if called then c ∷ rest.1 else rest.1)
