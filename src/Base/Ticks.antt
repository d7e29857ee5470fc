-- ===== src/Base/Ticks.antt =====
-- A concrete instance of the float operations, over the natural numbers, for tests: the order and `+`, `-`,
-- `*`, `/` are those of the numbers, and the trigonometric functions do nothing.
use Prim.Native.Nat.{ℕ, ◌+◌, ◌-◌, ◌*◌, ◌/◌}
use smart_trucks.Base.Tests.{ltb, leb, ◌==◌}
use smart_trucks.Base.Float.{FloatOps}

abbrev pub tick_floats : FloatOps
tick_floats = record {
  Float = ℕ;
  lit = λ n. n;
  add = λ a b. a + b;
  sub = λ a b. a - b;
  mul = λ a b. a * b;
  div = λ a b. a / b;
  lt = ltb;
  le = leb;
  eq = λ a b. a == b;
  sin = λ a. a;
  cos = λ a. 1;
  sqrt = λ a. a;
  atan2 = λ a b. a;
  radians = λ a. a;
}
