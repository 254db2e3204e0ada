-- ===== src/OrderService/Placing/Estimate.antt =====
-- The order service's estimate of a market buy, from a snapshot, beside the engine's own.
use cyptocurrency_exchange_b.Prelude.{
  ℕ, zero, suc, ◌≡◌, Bool, true, false, none, some, List, [], ◌∷◌, map, take, ltb, if◌then◌else◌,
  arith,
}
use cyptocurrency_exchange_b.Decimal.{DecimalLib, Decimal, zero_dec, add, sub, mul, is_zero}
use cyptocurrency_exchange_b.Engine.Types.{Order}
use cyptocurrency_exchange_b.Engine.OrderBook.{
  min_qty, estimate_from, estimate_market_buy_required_funds,
}
use cyptocurrency_exchange_b.Engine.Matching.{
  Engine, level, get_order_book_snapshot, estimate_required_funds,
}
use cyptocurrency_exchange_b.OrderService.Placing.{estimate_loop, estimate_from_snapshot_asks}

module _ ⦃lib : DecimalLib⦄ (cost : Decimal) where
  none_is : none ≡ some cost → ⊥
  none_is h = ground (arith, h)

  next_level :
      (ask : Order) (asks some_asks : List Order) (remaining total : Decimal)
      → (estimate_loop
              (sub remaining (min_qty remaining ask.quantity))
              (add total (mul ask.price (min_qty remaining ask.quantity)))
              (map level some_asks)
            ≡ some cost
          → estimate_from asks
              (sub remaining (min_qty remaining ask.quantity))
              (add total (mul ask.price (min_qty remaining ask.quantity)))
            ≡ some cost)
      → estimate_loop remaining total (map level (ask ∷ some_asks)) ≡ some cost
      → estimate_from (ask ∷ asks) remaining total ≡ some cost
  unfolding estimate_loop estimate_from
  next_level ask asks some_asks remaining total more h =
      step (is_zero (sub remaining (min_qty remaining ask.quantity))) h
    where
      step :
          (b : Bool)
          → (if b
              then some (add total (mul ask.price (min_qty remaining ask.quantity)))
              else estimate_loop
                  (sub remaining (min_qty remaining ask.quantity))
                  (add total (mul ask.price (min_qty remaining ask.quantity)))
                  (map level some_asks))
            ≡ some cost
          → (if b
              then some (add total (mul ask.price (min_qty remaining ask.quantity)))
              else estimate_from asks
                  (sub remaining (min_qty remaining ask.quantity))
                  (add total (mul ask.price (min_qty remaining ask.quantity))))
            ≡ some cost
      step true h = h
      step false h = more h

  estimate_whole :
      (asks : List Order) (remaining total : Decimal)
      → estimate_loop remaining total (map level asks) ≡ some cost
      → estimate_from asks remaining total ≡ some cost
  unfolding estimate_loop estimate_from
  estimate_whole [] remaining total h = h
  estimate_whole (ask ∷ asks) remaining total h =
      next_level ask asks asks remaining total
        (estimate_whole asks (sub remaining (min_qty remaining ask.quantity))
          (add total (mul ask.price (min_qty remaining ask.quantity))))
        h

  estimate_front :
      (n : ℕ) (asks : List Order) (remaining total : Decimal)
      → estimate_loop remaining total (map level (take n asks)) ≡ some cost
      → estimate_from asks remaining total ≡ some cost
  unfolding estimate_loop
  estimate_front zero asks remaining total h = absurd (none_is h)
  estimate_front (suc n) [] remaining total h = absurd (none_is h)
  estimate_front (suc n) (ask ∷ asks) remaining total h =
      next_level ask asks (take n asks) remaining total
        (estimate_front n asks (sub remaining (min_qty remaining ask.quantity))
          (add total (mul ask.price (min_qty remaining ask.quantity))))
        h

  -- Where the order service has funds estimated for a market buy from a snapshot of the engine, of
  -- any depth, the engine's own estimate at that moment is the same.
  pub estimate-snapshot :
      (e : Engine) (depth : ℕ) (quantity : Decimal)
      → estimate_from_snapshot_asks (get_order_book_snapshot e depth).asks quantity ≡ some cost
      → estimate_required_funds e quantity ≡ some cost
  unfolding estimate_from_snapshot_asks get_order_book_snapshot estimate_required_funds
      estimate_market_buy_required_funds
  estimate-snapshot e depth quantity h = by_depth (ltb 0 depth) h
    where
      by_depth :
          (b : Bool)
          → estimate_loop quantity zero_dec (map level (if b then take depth e.asks else e.asks))
            ≡ some cost
          → estimate_from e.asks quantity zero_dec ≡ some cost
      by_depth true h = estimate_front depth e.asks quantity zero_dec h
      by_depth false h = estimate_whole e.asks quantity zero_dec h
