-- ===== src/Decimal.antt =====
-- `decimal.Decimal`, finite: a signed coefficient with the number of its digits after the point.
use data_effi.Prelude.{ℕ, ◌+◌, ◌*◌, ◌^◌, ◌≡◌, Bool, true, suc, not, ◌||◌, ◌==◌, ==_iff, ltb, refl}
use data_effi.Prelude.Int.{ℤ, pos, abs, neg, pos_part, neg_part, sub_ℕ}

-- units / 10 ^ scale
pub record Decimal : Type 0 where
  pub units : ℤ
  pub scale : ℕ

-- One side of a comparison of a and b, at the scale of both; the negative parts have changed sides.
abbrev side : Decimal → Decimal → ℕ
side a b = pos_part a.units * 10 ^ b.scale + neg_part b.units * 10 ^ a.scale

-- a == b
unfoldable pub decimal_eq : Decimal → Decimal → Bool
decimal_eq a b = side a b == side b a

-- a < b
unfoldable pub decimal_lt : Decimal → Decimal → Bool
decimal_lt a b = ltb (side a b) (side b a)

-- abs(a)
unfoldable pub decimal_abs : Decimal → Decimal
decimal_abs a = record a { units = pos (abs a.units) }

-- -a
unfoldable pub decimal_neg : Decimal → Decimal
decimal_neg a = record a { units = neg a.units }

-- the integer n
abbrev pub whole : ℕ → Decimal
whole n = record { units = pos n; scale = 0 }

pub decimal_eq_refl : (a : Decimal) → decimal_eq a a ≡ true
unfolding decimal_eq
decimal_eq_refl a = (==_iff _ _).1 refl

-- 1.5 * a, which is (15 * a) / 10
abbrev pub three_halves_of : Decimal → Decimal
three_halves_of a = record {
  units = sub_ℕ (15 * pos_part a.units) (15 * neg_part a.units);
  scale = suc a.scale;
}

-- 0 < a
abbrev pub is_positive : Decimal → Bool
is_positive a = ltb 0 (pos_part a.units)

-- a < 0
abbrev pub is_negative : Decimal → Bool
is_negative a = ltb 0 (neg_part a.units)

-- a == 0
abbrev pub is_zero : Decimal → Bool
is_zero a = not (is_positive a || is_negative a)
