-- ===== src/Decimal.antt =====
-- github.com/shopspring/decimal, a package that the source calls and does not hold. It enters as a
-- record of the operations in use, with the documented exactness of each as its laws.
-- `value d` is the number that `d` stands for, counted in multiples of the smallest unit that the
-- package has (exponents are 32-bit integers, so every decimal is a whole multiple of it). Two
-- decimals with one `value` differ at most in their representation.
pub mod Laws
pub mod Whole
use cyptocurrency_exchange_b.Prelude.{ℕ, ◌≡◌, Bool, not}
use cyptocurrency_exchange_b.Prelude.Int.{ℤ, pos, ◌+ℤ◌, ◌-ℤ◌, ◌≤ℤ◌, ltb_ℤ, eqb_ℤ}

pub record DecimalLib : Type 1 where
  pub Carrier : Type 0
  pub value : Carrier → ℤ
  -- `decimal.Zero`
  pub zero : Carrier
  -- `NewFromInt`
  pub from_int : ℕ → Carrier
  -- `NewFromFloat(1.05)`
  pub market_buffer : Carrier
  pub add : Carrier → Carrier → Carrier
  pub sub : Carrier → Carrier → Carrier
  pub mul : Carrier → Carrier → Carrier
  pub neg : Carrier → Carrier
  -- `Round(8)`
  pub round8 : Carrier → Carrier
  pub less_than : Carrier → Carrier → Bool
  pub greater_than : Carrier → Carrier → Bool
  pub less_than_or_equal : Carrier → Carrier → Bool
  pub equal : Carrier → Carrier → Bool
  pub is_zero : Carrier → Bool
  pub is_positive : Carrier → Bool
  pub value-zero : value zero ≡ pos 0
  pub value-add : (a b : Carrier) → value (add a b) ≡ value a +ℤ value b
  pub value-sub : (a b : Carrier) → value (sub a b) ≡ value a -ℤ value b
  pub value-neg : (a : Carrier) → value (neg a) ≡ pos 0 -ℤ value a
  -- a product is exact, so it distributes over sums, and that of two numbers ≥ 0 is ≥ 0
  pub mul-add : (a b c : Carrier) → value (mul a (add b c)) ≡ value (mul a b) +ℤ value (mul a c)
  pub mul-value : (a b c : Carrier) → value b ≡ value c → value (mul a b) ≡ value (mul a c)
  pub mul_nonneg : (a b : Carrier) → pos 0 ≤ℤ value a → pos 0 ≤ℤ value b → pos 0 ≤ℤ value (mul a b)
  -- rounding keeps the order and leaves 0 alone
  pub round8-zero : (a : Carrier) → value a ≡ pos 0 → value (round8 a) ≡ pos 0
  pub round8_mono : (a b : Carrier) → value a ≤ℤ value b → value (round8 a) ≤ℤ value (round8 b)
  pub less_than-value : (a b : Carrier) → less_than a b ≡ ltb_ℤ (value a) (value b)
  pub greater_than-value : (a b : Carrier) → greater_than a b ≡ ltb_ℤ (value b) (value a)
  pub less_than_or_equal-value :
      (a b : Carrier) → less_than_or_equal a b ≡ not (ltb_ℤ (value b) (value a))
  pub equal-value : (a b : Carrier) → equal a b ≡ eqb_ℤ (value a) (value b)
  pub is_zero-value : (a : Carrier) → is_zero a ≡ eqb_ℤ (value a) (pos 0)
  pub is_positive-value : (a : Carrier) → is_positive a ≡ ltb_ℤ (pos 0) (value a)

module _ ⦃lib : DecimalLib⦄ where
  abbrev pub Decimal : Type 0
  Decimal = lib.Carrier

  abbrev pub value : Decimal → ℤ
  value = lib.value

  abbrev pub zero_dec : Decimal
  zero_dec = lib.zero

  abbrev pub from_int : ℕ → Decimal
  from_int = lib.from_int

  abbrev pub market_buffer : Decimal
  market_buffer = lib.market_buffer

  abbrev pub add : Decimal → Decimal → Decimal
  add = lib.add

  abbrev pub sub : Decimal → Decimal → Decimal
  sub = lib.sub

  abbrev pub mul : Decimal → Decimal → Decimal
  mul = lib.mul

  abbrev pub neg : Decimal → Decimal
  neg = lib.neg

  abbrev pub round8 : Decimal → Decimal
  round8 = lib.round8

  abbrev pub less_than : Decimal → Decimal → Bool
  less_than = lib.less_than

  abbrev pub greater_than : Decimal → Decimal → Bool
  greater_than = lib.greater_than

  abbrev pub less_than_or_equal : Decimal → Decimal → Bool
  less_than_or_equal = lib.less_than_or_equal

  abbrev pub equal : Decimal → Decimal → Bool
  equal = lib.equal

  abbrev pub is_zero : Decimal → Bool
  is_zero = lib.is_zero

  abbrev pub is_positive : Decimal → Bool
  is_positive = lib.is_positive
