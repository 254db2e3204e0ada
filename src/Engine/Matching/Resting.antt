-- ===== src/Engine/Matching/Resting.antt =====
-- An order that meets no maker waits in the book as it came.
use cyptocurrency_exchange_b.Prelude.{
  ℕ, ◌≤◌, String, ◌≡◌, refl, ap, sym, ◌∙◌, Bool, true, false, not, List, length, length-append,
  ◌==◌, arith,
}
use cyptocurrency_exchange_b.Decimal.{DecimalLib, Decimal, zero_dec, is_zero}
use cyptocurrency_exchange_b.Decimal.Laws.{zero_pos, zero_neg, eq→is_zero, lt→is_positive}
use cyptocurrency_exchange_b.Engine.Types.{Order, Trade, type_market}
use cyptocurrency_exchange_b.Engine.OrderBook.{OrderBook, add_order}
use cyptocurrency_exchange_b.Engine.OrderBook.Sorted.{side_of, is_buy}
use cyptocurrency_exchange_b.Engine.Matching.{Outside, Matched, Processed, rest_order}
use cyptocurrency_exchange_b.Engine.Matching.Run.{
  Run, no_maker, own_order, price_missed, filled, eaten,
}
use cyptocurrency_exchange_b.Engine.Matching.Keeps.{HasQuantity}
use cyptocurrency_exchange_b.Engine.Matching.Process.{misses_of, with_side, Runs}

module _ ⦃lib : DecimalLib⦄ where
  zero_is_zero : is_zero zero_dec ≡ true
  zero_is_zero = eq→is_zero zero_dec (omega (arith, zero_pos, zero_neg))

module _ ⦃lib : DecimalLib⦄ (misses : Decimal → Decimal → Bool) (out : Outside)
    (symbol : String) where
  Run-length :
      {n : ℕ} {makers : List Order} {taker : Order} {trades : List Trade} {m : Matched}
      → Run misses out symbol n makers taker trades m
      → length trades ≤ length m.trades
  Run-length (no_maker n taker trades) = omega arith
  Run-length (own_order n best rest taker trades own) = omega arith
  Run-length (price_missed n best rest taker trades other missed) = omega arith
  Run-length (filled n best rest taker trades other hit all) =
      omega (arith, length-append {0} trades _)
  Run-length (eaten n best rest taker trades m other hit more r) =
      omega (arith, Run-length r, length-append {0} trades _)

  Run-untraded :
      {n : ℕ} {makers : List Order} {taker : Order} {trades : List Trade} {m : Matched}
      → Run misses out symbol n makers taker trades m
      → length m.trades ≡ length trades
      → is_zero m.taker.quantity ≡ false
      → (m.makers ≡ makers) × (m.taker ≡ taker)
  Run-untraded (no_maker n taker trades) same left = (refl, refl)
  Run-untraded (own_order n best rest taker trades own) same left =
      absurd (let z = zero_is_zero in cc)
  Run-untraded (price_missed n best rest taker trades other missed) same left = (refl, refl)
  Run-untraded (filled n best rest taker trades other hit all) same left =
      absurd (omega (arith, length-append {0} trades _))
  Run-untraded (eaten n best rest taker trades m other hit more r) same left =
      absurd (omega (arith, Run-length r, length-append {0} trades _))

module _ ⦃lib : DecimalLib⦄ where
  with_side_self : (buy : Bool) (ob : OrderBook) → with_side buy ob (side_of buy ob) ≡ ob
  with_side_self true ob = refl
  with_side_self false ob = refl

  -- If `Process` makes no trade and leaves a quantity, the order waits behind the orders of its
  -- price or a better one, with its whole quantity, and nothing else has changed.
  pub process-rests :
      (out : Outside) (ob : OrderBook) (order : Order) (p : Processed)
      → Runs out ob order p (is_buy order)
      → HasQuantity order
      → (order.type == type_market) ≡ false
      → length p.trades ≡ 0
      → is_zero p.order.quantity ≡ false
      → p.book ≡ add_order ob order
  unfolding rest_order
  process-rests out ob order p r q limit untraded left =
      let (makers, taker) =
        Run-untraded (misses_of (is_buy order)) out ob.symbol r.run
          (ap length (sym r.trades) ∙ untraded)
          (ap (λ (o : Order). is_zero o.quantity) (sym r.left) ∙ left) in
      r.book
      ∙ (λ i. rest_order (with_side (not (is_buy order)) ob (makers i)) (taker i))
      ∙ ap (λ b. rest_order b order) (with_side_self (not (is_buy order)) ob)
      ∙ rests
    where
      rests : rest_order ob order ≡ add_order ob order
      rests = rw (lt→is_positive order.quantity q, limit, rest_order) refl
