-- ===== src/Collector/Watchdog.antt =====
-- telematics-edge/main.py: the loop of `network_watchdog_worker`. The probes and `_truck_is_active` are a turn's answers.
use smart_trucks.Base.{
  ℕ, suc, ◌+◌, ◌≤◌, ◌<◌, Bool, true, false, ◌&&◌, not, ltb, if◌then◌else◌, List, [], ◌∷◌, length,
  ◌≡◌, refl, arith, Bool-cases, inl, inr, All, ◌⊎◌, leb→le, ltb→lt,
}

pub record Config : Type 0 where
  pub check_interval : ℕ  -- network_watchdog_check_interval_seconds
  pub max_failures : ℕ  -- network_watchdog_max_failures
  pub recovery_pause : ℕ  -- network_watchdog_recovery_pause_seconds

-- The worker's counter, and the fields of `RuntimeState` that it uses.
pub record Watch : Type 0 where
  pub consecutive_failures : ℕ
  pub parked_mode : Bool
  pub park_wake : Bool  -- park_wake_event
  pub wifi_connected : Bool

-- What a turn meets: the first probe, the one before parking, and whether the truck is active then.
pub record Answers : Type 0 where
  pub is_connected : Bool
  pub is_connected_again : Bool
  pub is_active : Bool

-- One turn of the loop: the new state, and the seconds slept.
unfoldable pub turn : Config → Answers → Watch → Watch × ℕ
turn cfg a w =
    let failures = w.consecutive_failures + 1 in
    let down = record w { consecutive_failures = 0; wifi_connected = false } in
    if a.is_connected
    then (
      record {
        consecutive_failures = 0;
        parked_mode = false;
        park_wake = if w.parked_mode then true else w.park_wake;
        wifi_connected = true;
      },
      cfg.check_interval,
    )
    else if ltb failures cfg.max_failures
    then (record w { consecutive_failures = failures; wifi_connected = false }, cfg.check_interval)
    else if w.parked_mode
    then (down, cfg.check_interval)
    else if not a.is_connected_again && not a.is_active
    then (record down { parked_mode = true }, cfg.recovery_pause)
    else (down, cfg.recovery_pause)

-- The worker's turns; the other workers leave `parked_mode` alone meanwhile.
unfoldable pub run_turns : Config → List Answers → Watch → Watch
run_turns cfg [] w = w
run_turns cfg (a ∷ more) w = run_turns cfg more (turn cfg a w).0

-- Before the turn no worker had parked the truck, and after it the watchdog has: it saw the network down at
-- both probes, the last of `max_failures` in a row, and the truck idle.
abbrev pub ParksOnly : Config → Answers → Watch → Watch → Type 0
ParksOnly cfg a w w' =
    w.parked_mode ≡ false
    → w'.parked_mode ≡ true
    → (a.is_connected ≡ false)
      × (a.is_connected_again ≡ false)
      × (a.is_active ≡ false)
      × (cfg.max_failures ≤ w.consecutive_failures + 1)

-- The watchdog parks the truck only after `max_failures` failed probes in a row and one more, and never
-- while it is active.
turn-ParksOnly : (cfg : Config) (a : Answers) (w : Watch) → ParksOnly cfg a w (turn cfg a w).0
unfolding turn
turn-ParksOnly cfg a w h k = ground (arith, leb→le cfg.max_failures (w.consecutive_failures + 1))

-- A turn offline with the truck idle, not parked yet.
abbrev pub IsIdle : Answers → Type 0
IsIdle a = (a.is_connected ≡ false) × (a.is_connected_again ≡ false) × (a.is_active ≡ false)

-- Parked, or soon to be.
abbrev pub Due : Config → ℕ → Watch → Type 0
Due cfg left w =
    (w.parked_mode ≡ true)
    ⊎ ((cfg.max_failures ≤ w.consecutive_failures + left)
        × (w.consecutive_failures < cfg.max_failures))

turn-Due :
    (cfg : Config) (a : Answers) (w : Watch) (left : ℕ)
    → IsIdle a
    → Due cfg (suc left) w
    → Due cfg left (turn cfg a w).0
unfolding turn
turn-Due cfg a w left (c, d, i) h = rw c (
    go (Bool-cases w.parked_mode) (Bool-cases (ltb (w.consecutive_failures + 1) cfg.max_failures))
      h)
  where
    go :
        (w.parked_mode ≡ true) ⊎ (w.parked_mode ≡ false)
        → (ltb (w.consecutive_failures + 1) cfg.max_failures ≡ true)
          ⊎ (ltb (w.consecutive_failures + 1) cfg.max_failures ≡ false)
        → Due cfg (suc left) w
        → Due cfg left (turn cfg (record a { is_connected = false }) w).0
    go (inl p) (inl f) h = rw f (inl p)
    go (inl p) (inr f) h = rw (f, p) (inl refl)
    go (inr p) (inl f) (inl q) = absurd (cc)
    go (inr p) (inl f) (inr (b, l)) =
        rw f (inr (omega (arith, b), ltb→lt (w.consecutive_failures + 1) cfg.max_failures f))
    go (inr p) (inr f) h = rw (f, p, d, i) (inl refl)

-- A truck that stays idle and offline is parked: after as many such turns as the failures in a row lack to their
-- limit it is in parked mode, and it stays so while they go on.
run_turns_parks :
    (cfg : Config) (more : List Answers) (w : Watch)
    → All IsIdle more
    → Due cfg (length more) w
    → (run_turns cfg more w).parked_mode ≡ true
unfolding run_turns
run_turns_parks cfg [] w h (inl p) = p
run_turns_parks cfg [] w h (inr (b, l)) = absurd (omega (arith, b, l))
run_turns_parks cfg (a ∷ more) w (i, h) d =
    run_turns_parks cfg more (turn cfg a w).0 h (turn-Due cfg a w (length more) i d)
