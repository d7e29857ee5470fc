-- ===== src/Retry.antt =====
-- shared/sqlite_util.py: `run_with_retry`. The operation is a function of the attempt's number, since the
-- database may answer otherwise at each; a delay is the attempt's number, in base delays.
mod Tests
pub mod Attempts
use smart_trucks.Base.{
  ℕ, zero, suc, ◌+◌, ◌-◌, Bool, true, false, ◌||◌, not, ◌==◌, if◌then◌else◌, List, [], ◌∷◌,
}

-- One call of the operation: a value, or `sqlite3.OperationalError`, whether "database is locked" or
-- not, or another exception.
pub data Attempt {ℓ} (A : Type ℓ) : Type ℓ where
  returned : A → Attempt A
  operational_error : Bool → Attempt A
  other_error : Attempt A

-- The end of `run_with_retry`: how it ended, the calls made, and the delays slept.
pub record Ended {ℓ} (A : Type ℓ) : Type ℓ where
  pub last : Attempt A
  pub calls : ℕ
  pub delays : List ℕ

-- `max(1, SQLITE_LOCKED_RETRY_COUNT + 1)`, for a count with its sign, true for a negative one.
unfoldable pub attempts_of : Bool → ℕ → ℕ
attempts_of negative count = if negative then 1 else count + 1

module _ {ℓ} {A : Type ℓ} where
  abbrev one_more : ℕ → Ended A → Ended A
  one_more delay e = record e { calls = suc e.calls; delays = delay ∷ e.delays }

  -- What an attempt comes to, with the rest of the loop given: only a lock is tried again.
  abbrev pub after_attempt : ℕ → Ended A → Attempt A → Ended A
  after_attempt n rest (returned a) = record { last = returned a; calls = 1; delays = [] }
  after_attempt n rest (operational_error is_locked) =
      if is_locked
      then one_more n rest
      else record { last = operational_error false; calls = 1; delays = [] }
  after_attempt n rest other_error = record { last = other_error; calls = 1; delays = [] }

  -- The loop at attempt `n`, with so many left behind it; the last one raises what it meets.
  unfoldable pub attempt_loop : (ℕ → Attempt A) → ℕ → ℕ → Ended A
  attempt_loop operation zero n = record { last = operation n; calls = 1; delays = [] }
  attempt_loop operation (suc left) n =
      after_attempt n (attempt_loop operation left (suc n)) (operation n)

  unfoldable pub run_with_retry : Bool → ℕ → (ℕ → Attempt A) → Ended A
  unfolding attempts_of attempt_loop
  run_with_retry negative count operation =
      attempt_loop operation (attempts_of negative count - 1) 1
