-- ===== src/MarketData/Limits.antt =====
-- What the queries of market data return, whatever limit they are asked for.
use cyptocurrency_exchange_b.Prelude.{
  ℕ, ◌≤◌, String, ◌≡◌, refl, inl, inr, [], length, Bool-cases, arith,
}
use cyptocurrency_exchange_b.Prelude.Int.{ℤ, pos, pos_part, ◌<ℤ◌}
use cyptocurrency_exchange_b.Decimal.{DecimalLib}
use cyptocurrency_exchange_b.Store.World.{World}
use cyptocurrency_exchange_b.Store.World.After.{After}
use cyptocurrency_exchange_b.Store.Trades as Trades
use cyptocurrency_exchange_b.Store.Trades.{of_symbol, parse_interval_ms, group_rows}
use cyptocurrency_exchange_b.Store.Trades.Candles.{AreCandles, group_rows-Sorted, klines-AreCandles}
use cyptocurrency_exchange_b.OrderService.Symbols.{to_upper}
use cyptocurrency_exchange_b.MarketData.{clamp_limit, get_klines}

-- A limit lies between 1 and the greatest one, and a positive one that is asked for is not exceeded.
clamp_limit_bounds :
    (standard greatest : ℕ) (limit : ℤ)
    → (clamp_limit standard greatest limit ≤ greatest)
      × (pos 0 <ℤ limit → clamp_limit standard greatest limit ≤ pos_part limit)
unfolding clamp_limit
clamp_limit_bounds standard greatest limit = (ground arith, λ h. ground arith)

module _ ⦃lib : DecimalLib⦄ where
  -- Where the query for candles returns, it has changed nothing, and there are at most 1000 candles,
  -- and at most as many as a positive limit asks for: the newest first, each time once and aligned to
  -- the interval, with open and close between low and high.
  pub get_klines-AreCandles :
      (symbol interval : String) (limit : ℤ) (w : World)
      → After (get_klines symbol interval limit w) (λ ks w'.
        AreCandles (parse_interval_ms interval) ks
        × (length ks ≤ 1000)
        × (pos 0 <ℤ limit → length ks ≤ pos_part limit)
        × (w'.db ≡ w.db))
  unfolding get_klines Trades.get_klines
  get_klines-AreCandles symbol interval limit w =
      let ms = parse_interval_ms interval in
      let n = clamp_limit 100 1000 limit in
      let rows = of_symbol (to_upper symbol) w.db.trades in
      let (newest_first, aligned) = group_rows-Sorted ms rows [] tt tt in
      let (candles, le) = klines-AreCandles n ms (group_rows ms rows []) newest_first aligned in
      let (greatest, asked) = clamp_limit_bounds 100 1000 limit in
      elim (Bool-cases (w.env.fails w.calls)) [
        | inl down ↦ rw down tt
        | inr up ↦
            rw up (
              candles,
              omega arith,
              (λ positive. let le_asked = asked positive in omega arith),
              refl,
            )
      ]
