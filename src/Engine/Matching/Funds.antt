-- ===== src/Engine/Matching/Funds.antt =====
-- The funds that are estimated for a market buy are those that it then takes.
use cyptocurrency_exchange_b.Prelude.{
  ℕ, ◌≡◌, ◌≢◌, subst, String, true, Option, none, some, List, [], ◌∷◌, ◌++◌, arith, All,
}
use cyptocurrency_exchange_b.Prelude.Int.{ℤ, pos, ◌+ℤ◌, parts_of_eq, eq_of_parts}
use cyptocurrency_exchange_b.Decimal.{DecimalLib, Decimal, value, add, mul, zero_dec, less_than}
use cyptocurrency_exchange_b.Decimal.Laws.{decimal_sums, is_zero→eq}
use cyptocurrency_exchange_b.Engine.Types.{Order, Trade, side_buy, type_market}
use cyptocurrency_exchange_b.Engine.OrderBook.Sorted.{is_buy}
use cyptocurrency_exchange_b.Engine.OrderBook.{
  OrderBook, estimate_from, estimate_market_buy_required_funds,
}
use cyptocurrency_exchange_b.Engine.Matching.{Outside, Matched, Processed, make_trade, process}
use cyptocurrency_exchange_b.Engine.Matching.Run.{
  Run, sub_self, sub_more, no_maker, own_order, price_missed, filled, eaten,
}
use cyptocurrency_exchange_b.Engine.Matching.Process.{Runs, process-Runs}

module _ ⦃lib : DecimalLib⦄ where
  -- What the buyer of these trades pays, before any rounding.
  abbrev pub paid : List Trade → ℤ
  paid [] = pos 0
  paid (t ∷ ts) = value (mul t.price t.quantity) +ℤ paid ts

  paid_one :
      (ts : List Trade) (t : Trade)
      → paid (ts ++ t ∷ []) ≡ paid ts +ℤ value (mul t.price t.quantity)
  paid_one [] t = eq_of_parts _ _ (omega decimal_sums)
  paid_one (u ∷ ts) t = eq_of_parts _ _ (omega (decimal_sums, parts_of_eq _ _ (paid_one ts t)))

  -- What an estimate foretells of a loop that a market order runs.
  abbrev Foretold : Option Decimal → Decimal → List Trade → Matched → Type 0
  Foretold none so_far trades m = Unit
  Foretold (some cost) so_far trades m =
      (value m.taker.quantity ≡ pos 0) × (value cost +ℤ paid trades ≡ value so_far +ℤ paid m.trades)

  Run-Foretold :
      (out : Outside) (symbol : String) {n : ℕ} {asks : List Order} {taker : Order}
      {trades : List Trade} {m : Matched} (so_far : Decimal)
      → Run less_than out symbol n asks taker trades m
      → taker.type ≡ type_market
      → All (λ o. taker.user_id ≢ o.user_id) asks
      → Foretold (estimate_from asks taker.quantity so_far) so_far trades m
  unfolding estimate_from
  Run-Foretold out symbol so_far (no_maker n taker trades) market others = tt
  Run-Foretold out symbol so_far (own_order n best rest taker trades own) market others =
      absurd (others.0 own)
  Run-Foretold out symbol so_far (price_missed n best rest taker trades other missed) market
        others =
      absurd (ground (arith, market))
  Run-Foretold out symbol so_far (filled n best rest taker trades other hit all) market others =
      let t = make_trade out symbol n best taker taker.quantity in
      rw (all, sub_self taker.quantity, estimate_from)
        (
          eq_of_parts _ _ (omega (decimal_sums, is_zero→eq _ (sub_self taker.quantity))),
          eq_of_parts _ _ (omega (decimal_sums, parts_of_eq _ _ (paid_one trades t))),
        )
  Run-Foretold out symbol so_far (eaten n best rest taker trades m other hit more r) market others =
      let t = make_trade out symbol n best taker best.quantity in
      rw (more, sub_more taker.quantity best.quantity more, estimate_from)
        (carry _
          (Run-Foretold out symbol (add so_far (mul best.price best.quantity)) r market others.1))
    where
      carry :
          (e : Option Decimal)
          → Foretold e
              (add so_far (mul best.price best.quantity))
              (trades ++ make_trade out symbol n best taker best.quantity ∷ [])
              m
          → Foretold e so_far trades m
      carry none h = tt
      carry (some cost) h = (
        h.0,
        eq_of_parts _ _ (
            omega (
              decimal_sums,
              parts_of_eq _ _ h.1,
              parts_of_eq _ _ (paid_one trades (make_trade out symbol n best taker best.quantity)),
            )),
      )

  is_buy-true : (order : Order) → order.side ≡ side_buy → is_buy order ≡ true
  is_buy-true order buy = ground arith

  -- If the book has funds estimated for a market buy, and none of its asks is the buyer's own, then
  -- `Process` returns with the order filled whole, for exactly the estimated funds.
  pub estimate-process :
      (out : Outside) (ob : OrderBook) (order : Order) (cost : Decimal)
      → order.side ≡ side_buy
      → order.type ≡ type_market
      → All (λ o. order.user_id ≢ o.user_id) ob.asks
      → estimate_market_buy_required_funds ob order.quantity ≡ some cost
      → (p : Processed) × (process out ob order ≡ some p)
        × (value p.order.quantity ≡ pos 0)
        × (paid p.trades ≡ value cost)
  unfolding estimate_market_buy_required_funds
  estimate-process out ob order cost buy market others e =
      let (p, returns, r') = process-Runs out ob order in
      let r = subst (Runs out ob order p) (is_buy-true order buy) r' in
      let h =
        subst (λ c. Foretold c zero_dec [] r.m) e
          (Run-Foretold out ob.symbol zero_dec r.run market others) in
      (
        p,
        returns,
        rw r.left h.0,
        rw r.trades (eq_of_parts _ _ (omega (decimal_sums, parts_of_eq _ _ h.1))),
      )
