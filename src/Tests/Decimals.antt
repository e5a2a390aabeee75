-- ===== src/Tests/Decimals.antt =====
-- Numbers with six decimal places, on which the definitions that take `Numbers` run. A product or a
-- quotient is rounded towards 0.
use asgard_hl_basisstrategy.Base.{
  ℕ, suc, ◌+◌, ◌-◌, ◌*◌, ◌/◌, ◌^◌, Bool, ltb, leb, ◌==◌, if◌then◌else◌, Numbers, IsOrdered, arith,
}

-- `pos n` is n millionths, `negsuc n` is -(n + 1) millionths.
pub data ℤ : Type 0 where
  pos : ℕ → ℤ
  negsuc : ℕ → ℤ

abbrev pub pos_part : ℤ → ℕ
pos_part (pos n) = n
pos_part (negsuc _) = 0

abbrev pub neg_part : ℤ → ℕ
neg_part (pos _) = 0
neg_part (negsuc n) = suc n

abbrev pub sub_ℕ : ℕ → ℕ → ℤ
sub_ℕ a b = if leb b a then pos (a - b) else negsuc (b - a - 1)

abbrev pub neg_ℤ : ℤ → ℤ
neg_ℤ a = sub_ℕ (neg_part a) (pos_part a)

abbrev pub magnitude : ℤ → ℕ
magnitude a = pos_part a + neg_part a

-- A magnitude with the sign of a product.
abbrev pub signed : ℤ → ℤ → ℕ → ℤ
signed (pos _) (pos _) n = pos n
signed (negsuc _) (negsuc _) n = pos n
signed _ _ n = sub_ℕ 0 n

abbrev pub lt_ℤ : ℤ → ℤ → Bool
lt_ℤ a b = ltb (pos_part a + neg_part b) (pos_part b + neg_part a)

abbrev pub decimals : Numbers
decimals = record {
  Number = ℤ;
  literal = λ n k. pos (n * 1000000 / (10 ^ k));
  add = λ a b. sub_ℕ (pos_part a + pos_part b) (neg_part a + neg_part b);
  sub = λ a b. sub_ℕ (pos_part a + neg_part b) (neg_part a + pos_part b);
  mul = λ a b. signed a b (magnitude a * magnitude b / 1000000);
  div = λ a b. signed a b (magnitude a * 1000000 / magnitude b);
  neg = neg_ℤ;
  abs = λ a. pos (magnitude a);
  truncate = λ a. signed a (pos 0) (magnitude a / 1000000 * 1000000);
  round =
      λ k a. let step = 10 ^ (6 - k) in signed a (pos 0) ((magnitude a + step / 2) / step * step);
  lt = lt_ℤ;
  eq = λ a b. (pos_part a + neg_part b) == (pos_part b + neg_part a);
}

pub decimals-IsOrdered : IsOrdered decimals
decimals-IsOrdered = record {
  lt_irrefl = λ a. ground arith;
  lt_trans = λ a b c h k. ground arith;
  lt_split = λ a b c h. ground arith;
}

-- The number of whole units.
abbrev pub whole : ℕ → ℤ
whole n = pos (n * 1000000)
