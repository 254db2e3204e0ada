-- ===== src/Decimal/Laws.antt =====
-- The laws of `DecimalLib` in the forms that the proofs use: sums and differences as equations
-- between natural numbers, and what each test says of the values.
use cyptocurrency_exchange_b.Prelude.{ℕ, ◌+◌, ◌≡◌, ap, Bool, true, false, arith}
use cyptocurrency_exchange_b.Prelude.Int.{
  ℤ, pos, ◌+ℤ◌, ◌-ℤ◌, ◌≤ℤ◌, ◌<ℤ◌, pos_part, neg_part, +ℤ_parts, -ℤ_parts, eq_of_parts,
}
use cyptocurrency_exchange_b.Decimal.{
  DecimalLib, Decimal, value, zero_dec, add, sub, neg, less_than, greater_than, less_than_or_equal,
  equal, is_zero, is_positive,
}

module _ ⦃lib : DecimalLib⦄ where
  pub add_parts :
      (a b : Decimal)
      → pos_part (value (add a b)) + neg_part (value a) + neg_part (value b)
        ≡ neg_part (value (add a b)) + pos_part (value a) + pos_part (value b)
  add_parts a b = rw lib.value-add (+ℤ_parts (value a) (value b))

  pub sub_parts :
      (a b : Decimal)
      → pos_part (value (sub a b)) + neg_part (value a) + pos_part (value b)
        ≡ neg_part (value (sub a b)) + pos_part (value a) + neg_part (value b)
  sub_parts a b = rw lib.value-sub (-ℤ_parts (value a) (value b))

  pub neg_parts :
      (a : Decimal)
      → pos_part (value (neg a)) + pos_part (value a)
        ≡ neg_part (value (neg a)) + neg_part (value a)
  neg_parts a = rw lib.value-neg (omega (arith, -ℤ_parts (pos 0) (value a)))

  pub zero_pos : pos_part (value zero_dec) ≡ 0
  zero_pos = ap pos_part lib.value-zero

  pub zero_neg : neg_part (value zero_dec) ≡ 0
  zero_neg = ap neg_part lib.value-zero

  -- `value a ≡ value b`, as `omega` proves it.
  pub value_eq :
      (a b : Decimal)
      → pos_part (value a) + neg_part (value b) ≡ pos_part (value b) + neg_part (value a)
      → value a ≡ value b
  value_eq a b h = eq_of_parts (value a) (value b) h

  pub less_than→lt : (a b : Decimal) → less_than a b ≡ true → value a <ℤ value b
  less_than→lt a b h = ground (arith, lib.less_than-value a b)

  pub less_than→ge : (a b : Decimal) → less_than a b ≡ false → value b ≤ℤ value a
  less_than→ge a b h = ground (arith, lib.less_than-value a b)

  pub lt→less_than : (a b : Decimal) → value a <ℤ value b → less_than a b ≡ true
  lt→less_than a b h = ground (arith, lib.less_than-value a b)

  pub ge→less_than : (a b : Decimal) → value b ≤ℤ value a → less_than a b ≡ false
  ge→less_than a b h = ground (arith, lib.less_than-value a b)

  pub greater_than→lt : (a b : Decimal) → greater_than a b ≡ true → value b <ℤ value a
  greater_than→lt a b h = ground (arith, lib.greater_than-value a b)

  pub greater_than→ge : (a b : Decimal) → greater_than a b ≡ false → value a ≤ℤ value b
  greater_than→ge a b h = ground (arith, lib.greater_than-value a b)

  pub lt→greater_than : (a b : Decimal) → value b <ℤ value a → greater_than a b ≡ true
  lt→greater_than a b h = ground (arith, lib.greater_than-value a b)

  pub ge→greater_than : (a b : Decimal) → value a ≤ℤ value b → greater_than a b ≡ false
  ge→greater_than a b h = ground (arith, lib.greater_than-value a b)

  pub less_than_or_equal→le : (a b : Decimal) → less_than_or_equal a b ≡ true → value a ≤ℤ value b
  less_than_or_equal→le a b h = ground (arith, lib.less_than_or_equal-value a b)

  pub less_than_or_equal→gt : (a b : Decimal) → less_than_or_equal a b ≡ false → value b <ℤ value a
  less_than_or_equal→gt a b h = ground (arith, lib.less_than_or_equal-value a b)

  pub is_zero→eq : (a : Decimal) → is_zero a ≡ true → pos_part (value a) ≡ neg_part (value a)
  is_zero→eq a h = ground (arith, lib.is_zero-value a)

  pub is_zero→ne : (a : Decimal) → is_zero a ≡ false → pos_part (value a) ≡ neg_part (value a) → ⊥
  is_zero→ne a h e = ground (arith, lib.is_zero-value a)

  pub eq→is_zero : (a : Decimal) → pos_part (value a) ≡ neg_part (value a) → is_zero a ≡ true
  eq→is_zero a e = ground (arith, lib.is_zero-value a)

  pub is_positive→lt : (a : Decimal) → is_positive a ≡ true → pos 0 <ℤ value a
  is_positive→lt a h = ground (arith, lib.is_positive-value a)

  pub lt→is_positive : (a : Decimal) → pos 0 <ℤ value a → is_positive a ≡ true
  lt→is_positive a h = ground (arith, lib.is_positive-value a)

  pub is_positive→le : (a : Decimal) → is_positive a ≡ false → value a ≤ℤ pos 0
  is_positive→le a h = ground (arith, lib.is_positive-value a)

  pub equal→eq : (a b : Decimal) → equal a b ≡ true → value a ≡ value b
  equal→eq a b h = value_eq a b (ground (arith, lib.equal-value a b))

pub ruleset decimal_sums =
    (arith, +ℤ_parts, -ℤ_parts, eq_of_parts, add_parts, sub_parts, neg_parts, zero_pos, zero_neg)

pub ruleset decimal_tests = (
  less_than→lt, less_than→ge, greater_than→lt, greater_than→ge, is_zero→eq, is_zero→ne,
  is_positive→lt, is_positive→le,
)
