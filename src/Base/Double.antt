-- ===== src/Base/Double.antt =====
-- IEEE-754 doubles. A double is its bit pattern, and the arithmetic on it, which is the
-- processor's and the C library's, is a parameter of the definitions that use it.
use Prim.Native.Nat.{ℕ}
use mathlib.Core.Bool.{Bool}
use contextsnap.Base.Tests.{if◌then◌else◌}
use contextsnap.Base.Int.{ℤ}

pub data Double : Type 0 where
  bits : ℕ → Double

pub record Fpu : Type 0 where
  pub add : Double → Double → Double
  pub sub : Double → Double → Double
  pub mul : Double → Double → Double
  pub div : Double → Double → Double
  pub sqrt : Double → Double
  pub log2 : Double → Double
  -- The conversion of an integer, and `std::lround`.
  pub of_int : ℤ → Double
  pub lround : Double → ℤ
  -- The literal m / 10 ^ k.
  pub decimal : ℕ → ℕ → Double
  -- `<`, `<=` and `==`: separate tests, since a NaN compares false with everything.
  pub lt : Double → Double → Bool
  pub le : Double → Double → Bool
  pub eq : Double → Double → Bool

module _ (fpu : Fpu) where
  -- `std::max`, `std::min` and `std::clamp`.
  unfoldable pub dmax : Double → Double → Double
  dmax a b = if fpu.lt a b then b else a

  unfoldable pub dmin : Double → Double → Double
  dmin a b = if fpu.lt b a then b else a

  unfoldable pub dclamp : Double → Double → Double → Double
  dclamp v lo hi = if fpu.lt v lo then lo else if fpu.lt hi v then hi else v
