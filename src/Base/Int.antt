-- ===== src/Base/Int.antt =====
-- Python's `int`: signed, without bound, as the services parse and compare it.
use Prim.Native.Nat.{ℕ, ◌+◌, ◌-◌}
use mathlib.Core.Path.{◌≡◌, ap}
use mathlib.Core.Bool.{Bool, true, false}
use native.Mathlib.Omega.{arith}
use smart_trucks.Base.Tests.{ltb, leb, if◌then◌else◌}

-- `negsuc n` is -(n + 1).
pub data ℤ : Type 0 where
  pos : ℕ → ℤ
  negsuc : ℕ → ℤ

-- `a <= b` and `a < b`
abbrev pub leℤ : ℤ → ℤ → Bool
leℤ (pos m) (pos n) = leb m n
leℤ (pos m) (negsuc n) = false
leℤ (negsuc m) (pos n) = true
leℤ (negsuc m) (negsuc n) = leb n m

abbrev pub ltℤ : ℤ → ℤ → Bool
ltℤ (pos m) (pos n) = ltb m n
ltℤ (pos m) (negsuc n) = false
ltℤ (negsuc m) (pos n) = true
ltℤ (negsuc m) (negsuc n) = ltb n m

pub leℤ_trans : (a b c : ℤ) → leℤ a b ≡ true → leℤ b c ≡ true → leℤ a c ≡ true
leℤ_trans a b c h k = ground arith

pub leℤ_total : (a b : ℤ) → leℤ a b ≡ false → leℤ b a ≡ true
leℤ_total a b h = ground arith

pub leℤ_antisym : (a b : ℤ) → leℤ a b ≡ true → leℤ b a ≡ true → a ≡ b
leℤ_antisym (pos m) (pos n) h k = ap pos (ground arith)
leℤ_antisym (pos m) (negsuc n) h k = absurd (ground arith)
leℤ_antisym (negsuc m) (pos n) h k = absurd (ground arith)
leℤ_antisym (negsuc m) (negsuc n) h k = ap negsuc (ground arith)

pub leℤ_refl : (a : ℤ) → leℤ a a ≡ true
leℤ_refl a = ground arith

ltℤ-leℤ : (a b : ℤ) → ltℤ a b ≡ true → leℤ a b ≡ true
ltℤ-leℤ a b h = ground arith

not_ltℤ : (a b : ℤ) → ltℤ a b ≡ false → leℤ b a ≡ true
not_ltℤ a b h = ground arith

-- `a + b`
abbrev sub_nat : ℕ → ℕ → ℤ
sub_nat m n = if leb n m then pos (m - n) else negsuc (n - m - 1)

infixl 60 ◌+ℤ◌
abbrev pub ◌+ℤ◌ : ℤ → ℤ → ℤ
pos m +ℤ pos n = pos (m + n)
pos m +ℤ negsuc n = sub_nat m (n + 1)
negsuc m +ℤ pos n = sub_nat n (m + 1)
negsuc m +ℤ negsuc n = negsuc (m + n + 1)
