-- ===== src/Decimal/Whole.antt =====
-- Whole numbers meet the laws of `DecimalLib`: a package in which the smallest unit is 1.
use cyptocurrency_exchange_b.Prelude.{refl, not}
use cyptocurrency_exchange_b.Prelude.Int.{ℤ, pos, ◌+ℤ◌, ◌-ℤ◌, ◌*ℤ◌, ltb_ℤ, eqb_ℤ, *ℤ-+ℤ, *ℤ_nonneg}
use cyptocurrency_exchange_b.Decimal.{DecimalLib}

abbrev pub whole : DecimalLib
whole = record {
  Carrier = ℤ;
  value = λ a. a;
  zero = pos 0;
  from_int = pos;
  market_buffer = pos 1;
  add = ◌+ℤ◌;
  sub = ◌-ℤ◌;
  mul = ◌*ℤ◌;
  neg = λ a. pos 0 -ℤ a;
  round8 = λ a. a;
  less_than = ltb_ℤ;
  greater_than = λ a b. ltb_ℤ b a;
  less_than_or_equal = λ a b. not (ltb_ℤ b a);
  equal = eqb_ℤ;
  is_zero = λ a. eqb_ℤ a (pos 0);
  is_positive = λ a. ltb_ℤ (pos 0) a;
  value-zero = refl;
  value-add = λ a b. refl;
  value-sub = λ a b. refl;
  value-neg = λ a. refl;
  mul-add = *ℤ-+ℤ;
  mul-value = λ a b c h. λ i. a *ℤ h i;
  mul_nonneg = *ℤ_nonneg;
  round8-zero = λ a h. h;
  round8_mono = λ a b h. h;
  less_than-value = λ a b. refl;
  greater_than-value = λ a b. refl;
  less_than_or_equal-value = λ a b. refl;
  equal-value = λ a b. refl;
  is_zero-value = λ a. refl;
  is_positive-value = λ a. refl;
}
