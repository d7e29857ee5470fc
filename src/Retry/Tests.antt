-- ===== src/Retry/Tests.antt =====
-- Tests of the SQLite retry at a concrete operation.
use smart_trucks.Base.{ℕ, true, false, ◌==◌, if◌then◌else◌}
use smart_trucks.Retry.{Attempt, returned, operational_error, attempts_of, run_with_retry}
use smart_trucks.Retry.Attempts.{IsRetried, run_with_retry-IsRetried}

-- Locked at the first attempt, and then 7.
abbrev busy_once : ℕ → Attempt ℕ
busy_once n = if n == 1 then operational_error true else returned 7

run_with_retry-IsRetried_example :
    IsRetried busy_once (attempts_of false 5) 1 (run_with_retry false 5 busy_once)
run_with_retry-IsRetried_example = run_with_retry-IsRetried busy_once false 5
