-- ===== src/Base/Result.antt =====
-- Python calls that may raise: the value, or the exception that left the call.
use mathlib.Core.Bool.{Bool, true, false}

pub data PyError : Type 0 where
  type_error : PyError  -- `TypeError`, such as a distance to `None`
  runtime_error : PyError  -- `RuntimeError`
  value_error : PyError  -- `ValueError`, `json.JSONDecodeError` included
  network_error : PyError  -- `requests.RequestException` or `OSError`
  database_locked : PyError  -- `sqlite3.OperationalError`, "database is locked"
  database_error : PyError  -- any other `sqlite3` error
  command_error : PyError  -- `NmcliError`

pub data Result {ℓ} (A : Type ℓ) : Type ℓ where
  raise : PyError → Result A
  ok : A → Result A

-- The rest of a function behind a call: not run, if the call raised.
module _ {ℓ κ} {A : Type ℓ} {B : Type κ} where
  infixl 5 ◌>>=◌
  abbrev pub ◌>>=◌ : Result A → (A → Result B) → Result B
  raise e >>= rest = raise e
  ok a >>= rest = rest a

abbrev pub is_ok {ℓ} : {A : Type ℓ} → Result A → Bool
is_ok (ok a) = true
is_ok (raise e) = false

-- What holds of the value, if the call returned.
abbrev pub OnOk {ℓ κ} : {A : Type ℓ} → (A → Type κ) → Result A → Type κ
OnOk P (ok a) = P a
OnOk P (raise e) = Unit

pub OnOk-bind {ℓ κ μ ν} :
    {A : Type ℓ} {B : Type κ} (P : A → Type μ) (Q : B → Type ν) (m : Result A) (f : A → Result B)
    → OnOk P m
    → ((a : A) → P a → OnOk Q (f a))
    → OnOk Q (m >>= f)
OnOk-bind P Q (ok a) f h k = k a h
OnOk-bind P Q (raise e) f h k = tt

pub OnOk-map {ℓ κ μ} :
    {A : Type ℓ} (P : A → Type κ) (Q : A → Type μ) (m : Result A)
    → OnOk P m
    → ((a : A) → P a → Q a)
    → OnOk Q m
OnOk-map P Q (ok a) h k = k a h
OnOk-map P Q (raise e) h k = tt
