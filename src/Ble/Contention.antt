-- ===== src/Ble/Contention.antt =====
-- ble-sensor/main.py: the loop of `run`, with BlueZ's scan-start contention. Times and sleeps are milliseconds, and the
-- readings of `time.monotonic()`, the scans and the sentinel's state are a turn's answers. What is only
-- logged has no part here but the throttle of its time.
pub mod Recovery
use smart_trucks.Base.{
  ℕ, zero, suc, ◌+◌, ◌-◌, ◌*◌, ◌^◌, ◌%◌, ◌/◌, Bool, true, false, ◌&&◌, ltb, leb, ◌==◌, Option, none,
  some, or_default, if◌then◌else◌, List, [], ◌∷◌, ◌++◌,
}

pub record Config : Type 0 where
  pub backoff_cap : ℕ  -- scan_contention_backoff_cap_seconds
  pub cooldown_threshold : ℕ  -- scan_contention_cooldown_threshold
  pub max_attempts : ℕ  -- scan_contention_max_attempts_before_reset
  pub summary_interval : ℕ  -- scan_contention_summary_interval_seconds
  pub adapter_reset_enabled : Bool  -- scan_contention_adapter_reset_enabled
  pub adapter_reset_interval : ℕ  -- scan_contention_adapter_reset_interval_seconds
  pub restart_after_seconds : ℕ  -- scan_contention_restart_after_seconds, a whole number
  pub post_interval : ℕ  -- post_interval_seconds
  pub sentry_mode_enabled : Bool
  pub suspend_poll : ℕ  -- SENTRY_SUSPEND_POLL_SECONDS

-- The loop's variables.
pub record Scanner : Type 0 where
  pub scan_retry_attempt : ℕ
  pub contention_since : Option ℕ
  pub last_contention_log : ℕ
  pub last_adapter_reset : ℕ

-- How `collect_payload` ends: a payload, BlueZ's "operation already in progress", or another exception.
pub data Scan : Type 0 where
  scanned : Scan
  in_progress : Scan
  scan_failed : Scan

-- What a turn meets.
pub record Answers : Type 0 where
  pub is_suspended : Bool
  pub poll_interval : ℕ  -- of `_effective_scan_cadence`
  pub scan : Scan
  pub now : ℕ
  pub jitter : ℕ
  pub later : ℕ  -- the reading behind the sleeps

pub data Action : Type 0 where
  slept : ℕ → Action
  backed_off : ℕ → Action
  reset_adapter : ℕ → Action
  persisted : Action

-- A turn goes on with the loop, or raises SystemExit.
pub data Ended : Type 0 where
  goes_on : Scanner → List Action → Ended
  system_exit : List Action → Ended

-- `min(cap, 0.75 * 2 ** attempt)`, for an attempt below 1024: from there on the product raises OverflowError.
unfoldable pub backoff : Config → ℕ → ℕ
backoff cfg attempt =
    if ltb (750 * 2 ^ attempt) cfg.backoff_cap then 750 * 2 ^ attempt else cfg.backoff_cap

-- `int(now - since)`, in seconds
abbrev pub elapsed : ℕ → ℕ → ℕ
elapsed since later = (later - since) / 1000

-- Past the last attempt: leave, reset the adapter, or log.
unfoldable pub escalate : Config → Answers → ℕ → List Action → Scanner → Ended
escalate cfg a since before s =
    if leb cfg.restart_after_seconds (elapsed since a.later)
    then system_exit before
    else if cfg.adapter_reset_enabled
        && leb cfg.adapter_reset_interval (a.later - s.last_adapter_reset)
    then goes_on (record s { last_adapter_reset = a.later; last_contention_log = a.later })
        (before ++ reset_adapter a.later ∷ slept cfg.post_interval ∷ [])
    else if leb cfg.summary_interval (a.later - s.last_contention_log)
    then goes_on (record s { last_contention_log = a.later })
        (before ++ slept cfg.post_interval ∷ [])
    else goes_on s (before ++ slept cfg.post_interval ∷ [])

abbrev cooled : Config → ℕ → List Action
cooled cfg attempt =
    if attempt % cfg.cooldown_threshold == 0 then slept cfg.post_interval ∷ [] else []

-- A new episode begins.
abbrev pub episode : Answers → Scanner → Scanner
episode a s = elim s.contention_since [
  | some t ↦ s
  | none ↦ record s { contention_since = some a.now; last_contention_log = a.now }
]

abbrev pub tried_again : Scanner → ℕ → Scanner
tried_again s attempt = record s { scan_retry_attempt = attempt }

-- The branch of `is_op_in_progress`; an OverflowError of the backoff is logged, and the loop goes on without a sleep.
unfoldable pub contend : Config → Answers → Scanner → Ended
unfolding backoff escalate
contend cfg a s =
    let t = episode a s in
    let attempt = s.scan_retry_attempt + 1 in
    let waits = backed_off (backoff cfg s.scan_retry_attempt + a.jitter) ∷ cooled cfg attempt in
    if leb 1024 s.scan_retry_attempt
    then goes_on t []
    else if leb cfg.max_attempts attempt
    then escalate cfg a (or_default t.contention_since a.now) waits (tried_again t 0)
    else goes_on (tried_again t attempt) waits

-- One turn of the loop of `run`.
unfoldable pub turn : Config → Answers → Scanner → Ended
unfolding contend
turn cfg a s =
    if cfg.sentry_mode_enabled && a.is_suspended
    then goes_on s (slept cfg.suspend_poll ∷ [])
    else elim a.scan [
      | scanned ↦
          goes_on (record s { contention_since = none; scan_retry_attempt = 0 })
            (persisted ∷ slept a.poll_interval ∷ [])
      | in_progress ↦ contend cfg a s
      | scan_failed ↦ goes_on s (slept a.poll_interval ∷ [])
    ]

-- The loop from its start.
abbrev pub first_scanner : Scanner
first_scanner = record {
  scan_retry_attempt = 0;
  contention_since = none;
  last_contention_log = 0;
  last_adapter_reset = 0;
}

abbrev pub after_turn : (Scanner → Ended) → Ended → Ended
after_turn rest (goes_on s acts) = rest s
after_turn rest (system_exit acts) = system_exit acts

-- The turns of the loop, until one leaves; the actions are those of the turn that left.
unfoldable pub run_turns : Config → List Answers → Scanner → Ended
run_turns cfg [] s = goes_on s []
run_turns cfg (a ∷ more) s = after_turn (run_turns cfg more) (turn cfg a s)
