-- ===== src/Base/Numbers.antt =====
-- The floating-point numbers of scores, as an argument: the operations that the code uses. Nothing is
-- assumed of them.
use Prim.Native.Nat.{ℕ}
use mathlib.Core.Bool.{Bool}

pub record Floats : Type 1 where
  pub Float : Type 0
  pub zero_float : Float
  pub one_float : Float
  pub plus : Float → Float → Float
  pub minus : Float → Float → Float
  pub times : Float → Float → Float
  -- `a / b` of a float and an integer, and of two integers.
  pub over : Float → ℕ → Float
  pub ratio : ℕ → ℕ → Float
  -- The literals `0.78` and `0.22`, the latter as `1 - 0.78`.
  pub lambda_relevance : Float
  pub lambda_redundancy : Float
  pub less : Float → Float → Bool
