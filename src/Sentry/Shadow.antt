-- ===== src/Sentry/Shadow.antt =====
-- telematics-edge/main.py: the announced state, the controller's shadow and the sentinel agree at the
-- head of every cycle of `sentry_mode_worker`.
use smart_trucks.Base.{
  ℕ, zero, suc, ◌+◌, ◌≤◌, Bool, true, false, ◌||◌, Option, none, some, ◌≡◌, arith, Bool-cases, inl,
  inr,
}
use smart_trucks.Sentry.Controller.{apply, should_suspend}
use smart_trucks.Sentry.Worker.{
  World, State, GraceEnd, slept, aborted, grace_loop, grace_loop_total, announce, act, after_grace,
  idle_reset, desires, cycle, cycles, boot,
}

-- What the heartbeats announce is what the controller last did, and what the other services see.
pub record IsShadowed (s : State) : Type 0 where
  pub shadow : s.sentry_active ≡ s.controller.prev_suspended
  pub flag : s.sentry_active ≡ s.controller.flag_present
  pub since : s.sentry_active ≡ s.sentry_since_set

abbrev pub ShadowedEnd : Option (State × ℕ) → Type 0
ShadowedEnd none = ⊥
ShadowedEnd (some (s, now)) = IsShadowed s

-- A cycle that returned with the truck awake, its sentinel gone and nothing announced.
abbrev pub AwakeEnd : Option (State × ℕ) → Type 0
AwakeEnd none = ⊥
AwakeEnd (some (s, now)) =
    (s.sentry_active ≡ false) × (s.controller.flag_present ≡ false) × (s.sentry_since_set ≡ false)

module _ (w : World) (b : 1 ≤ w.wake_interval) (io : (t : ℕ) → w.io_ok t ≡ true) where
  after_grace-ShadowedEnd :
      (s : State) (e : GraceEnd)
      → s.sentry_active ≡ false
      → IsShadowed s
      → ShadowedEnd (after_grace w (announce w s) (some e))
  unfolding after_grace apply
  after_grace-ShadowedEnd s (slept now) f h = ground (arith, io now)
  after_grace-ShadowedEnd s (aborted now) f h = ground arith

  enter-ShadowedEnd :
      (now : ℕ) (s : State)
      → s.sentry_active ≡ false
      → IsShadowed s
      → ShadowedEnd (
          after_grace w (announce w s) (grace_loop w (suc w.flush_grace) (now + w.flush_grace) now))
  enter-ShadowedEnd now s f h =
      let (e, ended) =
        grace_loop_total w (suc w.flush_grace) (now + w.flush_grace) now b (omega arith) in
      rw ended (after_grace-ShadowedEnd s e f h)

  act-ShadowedEnd :
      (now : ℕ) (desired : Bool) (s : State) → IsShadowed s → ShadowedEnd (act w now desired s)
  unfolding act apply
  act-ShadowedEnd now false s h = ground (arith, io now)
  act-ShadowedEnd now true s h = elim (Bool-cases s.sentry_active) [
    | inl asleep ↦ ground (arith, io now)
    | inr awake ↦ ground (arith, enter-ShadowedEnd now s awake h)
  ]

  cycle-ShadowedEnd : (now : ℕ) (s : State) → IsShadowed s → ShadowedEnd (cycle w now s)
  unfolding cycle
  cycle-ShadowedEnd now s h =
      act-ShadowedEnd now (desires w now (idle_reset w now s)) (idle_reset w now s)
        (record { shadow = h.shadow; flag = h.flag; since = h.since })

  cycles-ShadowedEnd : (n now : ℕ) (s : State) → IsShadowed s → ShadowedEnd (cycles w n now s)
  unfolding cycles
  cycles-ShadowedEnd zero now s h = h
  cycles-ShadowedEnd (suc n) now s h =
      go (cycle w now s) (cycle-ShadowedEnd now s h) λ s' later. cycles-ShadowedEnd n later s'
    where
      go :
          (out : Option (State × ℕ))
          → ShadowedEnd out
          → ((s' : State) (later : ℕ) → IsShadowed s' → ShadowedEnd (cycles w n later s'))
          → ShadowedEnd (elim out as (λ _. Option (State × ℕ)) [
            | none ↦ none
            | some (s', later) ↦ cycles w n later s'
          ])
      go none v ih = v
      go (some (s', later)) v ih = ih s' later v

  boot-IsShadowed : (now : ℕ) (stale_flag : Bool) → IsShadowed (boot w now stale_flag)
  unfolding boot
  boot-IsShadowed now stale_flag = ground (arith, io now)

  -- With a wake interval of at least one tick and a file system that obeys, the worker never hangs in
  -- its grace loop, and after any number of cycles from its start, whatever the truck, the charger and
  -- the WiFi do and whether or not a crash left the sentinel: the announced state is the
  -- controller's shadow, the sentinel stands exactly while it is announced, and so does its time.
  pub boot_cycles_shadowed :
      (n now : ℕ) (stale_flag : Bool) → ShadowedEnd (cycles w n now (boot w now stale_flag))
  boot_cycles_shadowed n now stale_flag =
      cycles-ShadowedEnd n now (boot w now stale_flag) (boot-IsShadowed now stale_flag)

  -- With a file system that obeys and a wake interval of at least one tick, from a state in which the
  -- announced state, the shadow and the sentinel agree: at a cycle with motion, charging or WiFi the
  -- cycle returns with the truck announced awake and no sentinel.
  cycle_wakes :
      (now : ℕ) (s : State)
      → IsShadowed s
      → (w.active now || w.charging now || w.wifi now) ≡ true
      → AwakeEnd (cycle w now s)
  unfolding cycle should_suspend apply
  cycle_wakes now s h wake = ground (arith, io now)
