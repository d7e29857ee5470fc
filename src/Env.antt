-- ===== src/Env.antt =====
-- shared/env.py: reading the environment's variables. The `int` or `float` parser is a parameter; the numbers
-- are those of a `FloatOps`, as only their order matters.
mod Tests
pub mod Literals
use smart_trucks.Base.{
  ℕ, Bool, true, false, ◌&&◌, Option, none, some, if◌then◌else◌, List, [], ◌∷◌, ◌++◌, ◌==◌,
}
use smart_trucks.Base.Float.{FloatOps, max}
use smart_trucks.Base.Text.{Text, codes, starts_with, drop, strip, lstrip, rstrip}

-- `s.endswith("}")`
unfoldable pub ends_with_brace : Text → Bool
ends_with_brace [] = false
ends_with_brace (c ∷ s) = let rest = ends_with_brace s in elim s [ [] ↦ c == b'}' | d ∷ t ↦ rest ]

-- `s[:-1]`
unfoldable pub drop_last : Text → Text
drop_last [] = []
drop_last (c ∷ s) = let rest = drop_last s in elim s [ [] ↦ [] | d ∷ t ↦ c ∷ rest ]

-- `body.split(":-", 1)[1]`, if ":-" is in the body.
unfoldable pub fallback_of : Text → Option Text
fallback_of [] = none
fallback_of (c ∷ s) =
    let rest = fallback_of s in if starts_with (c ∷ s) (codes ":-") then some (drop 1 s) else rest

-- `value or None`
abbrev pub nonempty : Text → Option Text
nonempty [] = none
nonempty (c ∷ s) = some (c ∷ s)

-- A value with no outer spaces.
unfoldable pub expand : Text → Option Text
unfolding ends_with_brace drop_last fallback_of strip lstrip rstrip
expand value =
    if starts_with value (codes "$" ++ b'{' ∷ []) && ends_with_brace value
    then elim (fallback_of (drop_last (drop 2 value))) [
      | none ↦ none
      | some fallback ↦ nonempty (strip fallback)
    ]
    else nonempty value

-- `sanitize_env_value`
unfoldable pub sanitize_env_value : Option Text → Option Text
unfolding expand
sanitize_env_value none = none
sanitize_env_value (some raw_value) = expand (strip raw_value)

-- `read_str_env`
unfoldable pub read_str_env : Option Text → Option Text → Option Text
unfolding sanitize_env_value
read_str_env raw default = elim (sanitize_env_value raw) [
  | none ↦ default
  | some value ↦ some value
]

module _ (fl : FloatOps) (parse : Text → Option fl.Float) where
  open fl use {Float}

  abbrev at_least : Option Float → Float → Float
  at_least none parsed = parsed
  at_least (some minimum) parsed = max fl minimum parsed

  -- `read_int_env` and `read_float_env`, which have the same body.
  unfoldable pub read_number_env : Option Text → Float → Option Float → Float
  unfolding sanitize_env_value
  read_number_env raw default minimum = elim (sanitize_env_value raw) [
    | none ↦ at_least minimum default
    | some value ↦ elim (parse value) [
      | none ↦ at_least minimum default
      | some parsed ↦ at_least minimum parsed
    ]
  ]
