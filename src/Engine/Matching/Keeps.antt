-- ===== src/Engine/Matching/Keeps.antt =====
-- What a matching loop keeps of the makers, and how it leaves the taker.
use cyptocurrency_exchange_b.Prelude.{
  ℕ, String, ◌≡◌, refl, ◌⊎◌, inl, inr, Bool, true, false, List, [], ◌∷◌, Bool-cases, All,
  All-append, arith,
}
use cyptocurrency_exchange_b.Prelude.Int.{pos, ◌<ℤ◌, ◌≤ℤ◌}
use cyptocurrency_exchange_b.Prelude.Order.{Sorted}
use cyptocurrency_exchange_b.Decimal.{DecimalLib, Decimal, value, sub, is_zero}
use cyptocurrency_exchange_b.Decimal.Laws.{
  sub_parts, zero_pos, zero_neg, is_zero→ne, less_than→lt, less_than→ge,
}
use cyptocurrency_exchange_b.Engine.Types.{Order, Trade}
use cyptocurrency_exchange_b.Engine.Matching.{Outside, Matched, after_fill}
use cyptocurrency_exchange_b.Engine.Matching.Run.{
  Run, outside_limit, no_maker, own_order, price_missed, filled, eaten,
}

module _ ⦃lib : DecimalLib⦄ where
  -- A quantity above zero.
  abbrev pub HasQuantity : Order → Type 0
  HasQuantity o = pos 0 <ℤ value o.quantity

  abbrev pub MovesQuantity : Trade → Type 0
  MovesQuantity t = pos 0 <ℤ value t.quantity

  after_fill-All :
      (P : Order → Type 0) (best : Order) (q : Decimal) (rest : List Order)
      → (is_zero (sub best.quantity q) ≡ false → P (record best { quantity = sub best.quantity q }))
      → All P rest
      → All P (after_fill best q rest)
  after_fill-All P best q rest h hs = elim (Bool-cases (is_zero (sub best.quantity q))) [
    | inl gone ↦ rw gone hs
    | inr left ↦ rw left (h left, hs)
  ]

  after_fill-Sorted :
      (R : Order → Order → Type 0) (best : Order) (q : Decimal) (rest : List Order)
      → ((o : Order) (k : Decimal) (y : Order) → R o y → R (record o { quantity = k }) y)
      → Sorted R (best ∷ rest)
      → Sorted R (after_fill best q rest)
  after_fill-Sorted R best q rest keep s = elim (Bool-cases (is_zero (sub best.quantity q))) [
    | inl gone ↦ rw gone s.1
    | inr left ↦ rw left (heads rest s.0, s.1)
  ]
    where
      heads :
          (ys : List Order)
          → All (R best) ys
          → All (R (record best { quantity = sub best.quantity q })) ys
      heads [] h = tt
      heads (y ∷ ys) h = (keep best (sub best.quantity q) y h.0, heads ys h.1)

module _ ⦃lib : DecimalLib⦄ (misses : Decimal → Decimal → Bool) (out : Outside)
    (symbol : String) where
  -- What does not depend on quantities stays true of the makers.
  pub Run-All :
      (P : Order → Type 0)
      → ((o : Order) (k : Decimal) → P o → P (record o { quantity = k }))
      → {n : ℕ} {makers : List Order} {taker : Order} {trades : List Trade} {m : Matched}
      → Run misses out symbol n makers taker trades m
      → All P makers
      → All P m.makers
  Run-All P keep (no_maker n taker trades) h = h
  Run-All P keep (own_order n best rest taker trades own) h = h
  Run-All P keep (price_missed n best rest taker trades other missed) h = h
  Run-All P keep (filled n best rest taker trades other hit all) h =
      after_fill-All P best taker.quantity rest (λ _. keep best _ h.0) h.1
  Run-All P keep (eaten n best rest taker trades m other hit more r) h = Run-All P keep r h.1

  pub Run-Sorted :
      (R : Order → Order → Type 0)
      → ((o : Order) (k : Decimal) (y : Order) → R o y → R (record o { quantity = k }) y)
      → {n : ℕ} {makers : List Order} {taker : Order} {trades : List Trade} {m : Matched}
      → Run misses out symbol n makers taker trades m
      → Sorted R makers
      → Sorted R m.makers
  Run-Sorted R keep (no_maker n taker trades) s = s
  Run-Sorted R keep (own_order n best rest taker trades own) s = s
  Run-Sorted R keep (price_missed n best rest taker trades other missed) s = s
  Run-Sorted R keep (filled n best rest taker trades other hit all) s =
      after_fill-Sorted R best taker.quantity rest keep s
  Run-Sorted R keep (eaten n best rest taker trades m other hit more r) s = Run-Sorted R keep r s.1

  -- Makers keep quantities above zero, and the taker's does not fall below zero.
  pub Run-HasQuantity :
      {n : ℕ} {makers : List Order} {taker : Order} {trades : List Trade} {m : Matched}
      → Run misses out symbol n makers taker trades m
      → HasQuantity taker
      → All HasQuantity makers
      → All HasQuantity m.makers × (pos 0 ≤ℤ value m.taker.quantity)
  Run-HasQuantity (no_maker n taker trades) t h = (h, omega arith)
  Run-HasQuantity (own_order n best rest taker trades own) t h =
      (h, omega (arith, zero_pos, zero_neg))
  Run-HasQuantity (price_missed n best rest taker trades other missed) t h = (h, omega arith)
  Run-HasQuantity (filled n best rest taker trades other hit all) t h = (
    after_fill-All HasQuantity best taker.quantity rest
        (λ left. omega (
          arith,
          sub_parts best.quantity taker.quantity,
          less_than→ge best.quantity taker.quantity all,
          is_zero→ne (sub best.quantity taker.quantity) left,
        ))
        h.1,
    omega (arith, sub_parts taker.quantity taker.quantity),
  )
  Run-HasQuantity (eaten n best rest taker trades m other hit more r) t h =
      Run-HasQuantity r
        (omega (
          arith,
          sub_parts taker.quantity best.quantity,
          less_than→lt best.quantity taker.quantity more,
        ))
        h.1

  -- Every trade moves a quantity above zero.
  pub Run-MovesQuantity :
      {n : ℕ} {makers : List Order} {taker : Order} {trades : List Trade} {m : Matched}
      → Run misses out symbol n makers taker trades m
      → HasQuantity taker
      → All HasQuantity makers
      → All MovesQuantity trades
      → All MovesQuantity m.trades
  Run-MovesQuantity (no_maker n taker trades) t h ts = ts
  Run-MovesQuantity (own_order n best rest taker trades own) t h ts = ts
  Run-MovesQuantity (price_missed n best rest taker trades other missed) t h ts = ts
  Run-MovesQuantity (filled n best rest taker trades other hit all) t h ts =
      All-append MovesQuantity trades _ ts (t, tt)
  Run-MovesQuantity (eaten n best rest taker trades m other hit more r) t h ts =
      Run-MovesQuantity r
        (omega (
          arith,
          sub_parts taker.quantity best.quantity,
          less_than→lt best.quantity taker.quantity more,
        ))
        h.1 (All-append MovesQuantity trades _ ts (h.0, tt))

  -- Only the taker's quantity changes.
  pub Run-taker :
      {n : ℕ} {makers : List Order} {taker : Order} {trades : List Trade} {m : Matched}
      → Run misses out symbol n makers taker trades m
      → m.taker ≡ record taker { quantity = m.taker.quantity }
  Run-taker (no_maker n taker trades) = refl
  Run-taker (own_order n best rest taker trades own) = refl
  Run-taker (price_missed n best rest taker trades other missed) = refl
  Run-taker (filled n best rest taker trades other hit all) = refl
  Run-taker (eaten n best rest taker trades m other hit more r) = Run-taker r

  -- A taker with quantity left met an empty side, or a next maker outside its limit.
  pub Run-stops :
      {n : ℕ} {makers : List Order} {taker : Order} {trades : List Trade} {m : Matched}
      → Run misses out symbol n makers taker trades m
      → pos 0 <ℤ value m.taker.quantity
      → (m.makers ≡ [])
        ⊎ ((o : Order) × (os : List Order) × (m.makers ≡ o ∷ os)
            × (outside_limit misses taker o ≡ true))
  Run-stops (no_maker n taker trades) left = inl refl
  Run-stops (own_order n best rest taker trades own) left =
      absurd (omega (arith, zero_pos, zero_neg))
  Run-stops (price_missed n best rest taker trades other missed) left =
      inr (best, rest, refl, missed)
  Run-stops (filled n best rest taker trades other hit all) left =
      absurd (omega (arith, sub_parts taker.quantity taker.quantity))
  Run-stops (eaten n best rest taker trades m other hit more r) left = Run-stops r left
