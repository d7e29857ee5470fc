-- ===== src/Base/Float.antt =====
-- Python's floats and the `math` functions that the services call. They are not code of the
-- repository: the models take the type and its operations as this parameter, and a theorem that
-- needs more of them than their shape says so in a hypothesis.
use Prim.Native.Nat.{ℕ}
use mathlib.Core.Bool.{Bool}
use mathlib.Core.Option.{Option, none, some}
use smart_trucks.Base.Tests.{if◌then◌else◌}

pub record FloatOps : Type 1 where
  pub Float : Type 0
  pub lit : ℕ → Float  -- a literal with no fraction
  pub add : Float → Float → Float
  pub sub : Float → Float → Float
  pub mul : Float → Float → Float
  pub div : Float → Float → Float
  pub lt : Float → Float → Bool
  pub le : Float → Float → Bool
  pub eq : Float → Float → Bool
  pub sin : Float → Float
  pub cos : Float → Float
  pub sqrt : Float → Float
  pub atan2 : Float → Float → Float
  pub radians : Float → Float

module _ (fl : FloatOps) where
  open fl use {Float, lit, lt, eq}

  -- `max(a, b)` and `min(a, b)`: the first argument wins a tie.
  abbrev pub max : Float → Float → Float
  max a b = if lt a b then b else a

  abbrev pub min : Float → Float → Float
  min a b = if lt b a then b else a

  -- `x or 0.0`
  abbrev pub or_zero : Option Float → Float
  or_zero none = lit 0
  or_zero (some x) = if eq x (lit 0) then lit 0 else x
