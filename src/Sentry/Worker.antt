-- ===== src/Sentry/Worker.antt =====
-- telematics-edge/main.py: `_truck_is_active`, `_enter_sentry` and the loop of `sentry_mode_worker`.
-- The monotonic clock counts ticks, which never go back, so a difference of readings is a natural
-- number; the several readings of one cycle are taken as one. What the other workers and the file system
-- do is the `World`.
use smart_trucks.Base.{
  ℕ, zero, suc, ◌+◌, ◌-◌, ◌≤◌, ◌<◌, Bool, true, false, ◌&&◌, not, ltb, leb, Option, none, some,
  if◌then◌else◌, ◌≡◌, refl, arith, Bool-cases, inl, inr,
}
use smart_trucks.Sentry.Controller.{SentryController, should_suspend, apply, boot_safety_clear}

pub record World : Type 0 where
  pub idle_timeout : ℕ  -- sentry_idle_timeout_seconds
  pub wake_interval : ℕ  -- sentry_wake_interval_seconds
  pub flush_grace : ℕ  -- sentry_sync_flush_grace_seconds
  pub active : ℕ → Bool  -- `_truck_is_active` at a time
  pub charging : ℕ → Bool  -- `is_charging` of the newest power snapshot
  pub wifi : ℕ → Bool  -- `state.wifi_connected`
  pub io_ok : ℕ → Bool  -- whether the sentinel's file operation goes through
  pub lag : ℕ → ℕ  -- how much longer a sleep takes

-- `_truck_is_active`: motion within `hold` ticks, or a speed that reads as moving.
unfoldable pub truck_is_active : ℕ → ℕ → ℕ → Bool → Bool
truck_is_active hold last_motion now fast =
    if ltb 0 last_motion && ltb (now - last_motion) hold then true else fast

-- The fields of `RuntimeState` that Sentry Mode shares, with its controller and the number of
-- announcements queued.
pub record State : Type 0 where
  pub sentry_active : Bool
  pub sentry_since_set : Bool
  pub idle_since : ℕ
  pub parked_mode : Bool
  pub park_wake : Bool
  pub announced : ℕ
  pub controller : SentryController

pub data GraceEnd : Type 0 where
  slept : ℕ → GraceEnd  -- the grace is over
  aborted : ℕ → GraceEnd  -- motion was seen

-- `min(a, b)` on ticks.
abbrev pub min_ticks : ℕ → ℕ → ℕ
min_ticks a b = if ltb b a then b else a

module _ (w : World) where
  -- The `while True` of `_enter_sentry`; `none` means that the fuel ran out.
  unfoldable pub grace_loop : ℕ → ℕ → ℕ → Option GraceEnd
  grace_loop zero deadline now = none
  grace_loop (suc fuel) deadline now =
      let later =
        grace_loop fuel deadline (now + min_ticks w.wake_interval (deadline - now) + w.lag now) in
      if leb deadline now
      then some (slept now)
      else if w.active now
      then some (aborted now)
      else later

  -- `_enter_sentry`, up to the loop: the announcement and the throttling.
  abbrev pub announce : State → State
  announce s = record s {
    sentry_active = true;
    sentry_since_set = true;
    parked_mode = true;
    announced = s.announced + 1;
  }

  abbrev pub abort_entry : State → State
  abort_entry s = record s {
    sentry_active = false;
    sentry_since_set = false;
    parked_mode = false;
    park_wake = true;
  }

  abbrev pub wake_up : State → State
  wake_up s = record s {
    sentry_active = false;
    sentry_since_set = false;
    parked_mode = false;
    park_wake = if s.parked_mode then true else s.park_wake;
  }

  abbrev pub with_controller : ℕ → Bool → State → State
  with_controller now desired s = record s {
    controller = (apply (w.io_ok now) desired s.controller).0;
  }

  -- Behind the grace: suspend, or re-evaluate at the next cycle.
  unfoldable pub after_grace : State → Option GraceEnd → Option (State × ℕ)
  after_grace s none = none
  after_grace s (some (slept now)) =
      some (with_controller now true s, now + w.wake_interval + w.lag now)
  after_grace s (some (aborted now)) = some (abort_entry s, now + w.wake_interval + w.lag now)

  -- The wish of a cycle, after the idle clock is reset by activity.
  abbrev pub idle_reset : ℕ → State → State
  idle_reset now s = record s { idle_since = if w.active now then now else s.idle_since }

  unfoldable pub desires : ℕ → State → Bool
  desires now s =
      should_suspend true (w.active now) (w.charging now) (w.wifi now) (now - s.idle_since)
        w.idle_timeout

  -- The transitions of a cycle, and the call of `apply`.
  unfoldable pub act : ℕ → Bool → State → Option (State × ℕ)
  unfolding after_grace
  act now desired s =
      if desired && not s.sentry_active
      then after_grace (announce s) (grace_loop (suc w.flush_grace) (now + w.flush_grace) now)
      else some (
        with_controller now desired (if not desired && s.sentry_active then wake_up s else s),
        now + w.wake_interval + w.lag now,
      )

  -- One cycle of `sentry_mode_worker` at `now`: the state and the time of the next cycle. The fuel of
  -- the grace loop is enough: see `grace_loop_total`.
  unfoldable pub cycle : ℕ → State → Option (State × ℕ)
  unfolding act desires
  cycle now s = act now (desires now (idle_reset now s)) (idle_reset now s)

  -- With a wake interval of at least one tick the grace loop ends within its fuel: it sees motion, or
  -- the deadline has come.
  pub grace_loop_total :
      (fuel deadline now : ℕ)
      → 1 ≤ w.wake_interval
      → deadline - now < fuel
      → (e : GraceEnd) × (grace_loop fuel deadline now ≡ some e)
  unfolding grace_loop
  grace_loop_total zero deadline now h b = absurd (omega arith)
  grace_loop_total (suc fuel) deadline now h b = elim (Bool-cases (leb deadline now)) [
    | inl over ↦ (slept now, rw over refl)
    | inr waiting ↦ elim (Bool-cases (w.active now)) [
      | inl moved ↦ (aborted now, rw (waiting, moved) refl)
      | inr still ↦
          rw (waiting, still)
            (grace_loop_total fuel deadline
              (now + min_ticks w.wake_interval (deadline - now) + w.lag now) h
              (shorter (w.lag now) waiting))
    ]
  ]
    where
      shorter :
          (extra : ℕ)
          → leb deadline now ≡ false
          → deadline - (now + min_ticks w.wake_interval (deadline - now) + extra) < fuel
      shorter extra waiting = ground arith

-- The cycles of the worker from a time on; `none` if a grace loop ran out of fuel.
unfoldable pub cycles : World → ℕ → ℕ → State → Option (State × ℕ)
cycles w zero now s = some (s, now)
cycles w (suc n) now s = elim (cycle w now s) [
  | none ↦ none
  | some (s', later) ↦ cycles w n later s'
]

-- The start of the worker: the stale sentinel of a crash is cleared, and the idle clock starts.
unfoldable pub boot : World → ℕ → Bool → State
unfolding boot_safety_clear
boot w now stale_flag = record {
  sentry_active = false;
  sentry_since_set = false;
  idle_since = now;
  parked_mode = false;
  park_wake = false;
  announced = 0;
  controller =
      boot_safety_clear (w.io_ok now)
        (record { prev_suspended = false; flag_present = stale_flag });
}
