-- ===== src/Base/Arithmetic.antt =====
-- Python's `Decimal` (or `float`) as a parameter: a carrier with the operations that the code uses.
-- Comparisons are of finite values, so `a <= b` is read as not `b < a`.
use asgard_hl_basisstrategy.Base.Tests.{if◌then◌else◌, not}
use Prim.Native.Nat.{ℕ}
use mathlib.Core.Bool.{Bool, true, false, ◌||◌}
use mathlib.Core.Option.{Option, none, some}
use mathlib.Core.Path.{◌≡◌}
use mathlib.Core.Logic.{◌⊎◌}
use native.Mathlib.Omega.{arith}

pub record Numbers : Type 1 where
  pub Number : Type 0
  -- `literal n k` is the number n / 10 ^ k, such as `Decimal("0.005")` for `literal 5 3`.
  pub literal : ℕ → ℕ → Number
  pub add : Number → Number → Number
  pub sub : Number → Number → Number
  pub mul : Number → Number → Number
  pub div : Number → Number → Number
  pub neg : Number → Number
  pub abs : Number → Number
  -- `int(a)`, as a number.
  pub truncate : Number → Number
  -- The number that the text of a number with so many decimals stands for, as of `f"{a:.6f}"`.
  pub round : ℕ → Number → Number
  pub lt : Number → Number → Bool
  pub eq : Number → Number → Bool

module _ (N : Numbers) where
  abbrev pub zero_number : N.Number
  zero_number = N.literal 0 0

  -- `a <= b`
  abbrev pub le : N.Number → N.Number → Bool
  le a b = not (N.lt b a)

  -- `max(a, b)` keeps its first argument unless the second is greater.
  abbrev pub max_of : N.Number → N.Number → N.Number
  max_of a b = if N.lt a b then b else a

  -- `min(a, b)` keeps its first argument unless the second is less.
  abbrev pub min_of : N.Number → N.Number → N.Number
  min_of a b = if N.lt b a then b else a

  -- `a or b` for an optional number: a missing value and 0 fall back.
  abbrev pub number_or : Option N.Number → N.Number → N.Number
  number_or none d = d
  number_or (some a) d = if N.eq a zero_number then d else a

-- What is assumed of comparisons: finite numbers are linearly ordered.
pub record IsOrdered (N : Numbers) : Type 0 where
  pub lt_irrefl : (a : N.Number) → N.lt a a ≡ false
  pub lt_trans : (a b c : N.Number) → N.lt a b ≡ true → N.lt b c ≡ true → N.lt a c ≡ true
  pub lt_split : (a b c : N.Number) → N.lt a c ≡ true → (N.lt a b ≡ true) ⊎ (N.lt b c ≡ true)

module _ (N : Numbers) (order : IsOrdered N) where
  -- A bound is below a maximum exactly when it is below one of the two numbers.
  pub lt-max_of : (x y z : N.Number) → N.lt x (max_of N y z) ≡ (N.lt x y || N.lt x z)
  lt-max_of x y z = ground (arith, order.lt_trans x y z, order.lt_split x y z)

  -- What is not below another is at most it, and a minimum is at most both.
  pub le-min_of : (x y : N.Number) → (le N (min_of N x y) x ≡ true) × (le N (min_of N x y) y ≡ true)
  le-min_of x y = ground (arith, order.lt_irrefl x, order.lt_irrefl y, order.lt_trans x y x)

  pub le_refl : (x : N.Number) → le N x x ≡ true
  le_refl x = ground (arith, order.lt_irrefl x)
