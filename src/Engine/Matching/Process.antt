-- ===== src/Engine/Matching/Process.antt =====
-- `Process` as one run of its matching loop, for either side.
use cyptocurrency_exchange_b.Prelude.{
  suc, ◌≡◌, refl, Bool, true, false, not, Option, none, some, List, [], length, if◌then◌else◌,
  arith,
}
use cyptocurrency_exchange_b.Decimal.{DecimalLib, Decimal, less_than, greater_than}
use cyptocurrency_exchange_b.Engine.Types.{Order}
use cyptocurrency_exchange_b.Engine.OrderBook.{OrderBook}
use cyptocurrency_exchange_b.Engine.OrderBook.Sorted.{side_of, is_buy}
use cyptocurrency_exchange_b.Engine.Matching.{
  Outside, Matched, Processed, match_buy_order, match_sell_order, rest_order, process,
}
use cyptocurrency_exchange_b.Engine.Matching.Run.{Run, match_loop-Run}

module _ ⦃lib : DecimalLib⦄ where
  -- The price test of each loop.
  abbrev pub misses_of : Bool → Decimal → Decimal → Bool
  misses_of true = less_than
  misses_of false = greater_than

  abbrev pub with_side : Bool → OrderBook → List Order → OrderBook
  with_side true ob os = record ob { bids = os }
  with_side false ob os = record ob { asks = os }

  -- A call of `Process` that ended at `p`: its loop ran to `m`.
  pub record Runs (out : Outside) (ob : OrderBook) (order : Order) (p : Processed) (buy : Bool)
      : Type 0 where
    pub m : Matched
    pub run : Run (misses_of buy) out ob.symbol 0 (side_of (not buy) ob) order [] m
    pub book : p.book ≡ rest_order (with_side (not buy) ob m.makers) m.taker
    pub left : p.order ≡ m.taker
    pub trades : p.trades ≡ m.trades

  process_side : Bool → Outside → OrderBook → Order → Option Processed
  process_side buy out ob order =
      if buy
      then (elim (match_buy_order out ob order) [
        | none ↦ none
        | some m ↦ some (record {
          book = rest_order (record ob { asks = m.makers }) m.taker;
          order = m.taker;
          trades = m.trades;
        })
      ])
      else (elim (match_sell_order out ob order) [
        | none ↦ none
        | some m ↦ some (record {
          book = rest_order (record ob { bids = m.makers }) m.taker;
          order = m.taker;
          trades = m.trades;
        })
      ])

  process_side-Runs :
      (buy : Bool) (out : Outside) (ob : OrderBook) (order : Order)
      → (p : Processed) × (process_side buy out ob order ≡ some p) × Runs out ob order p buy
  unfolding process_side match_buy_order match_sell_order
  process_side-Runs true out ob order =
      let (m, e, r) =
        match_loop-Run less_than out ob.symbol (suc (length ob.asks)) 0 ob.asks order []
          (omega arith) in
      (_, rw e, record { m = m; run = r; book = refl; left = refl; trades = refl })
  process_side-Runs false out ob order =
      let (m, e, r) =
        match_loop-Run greater_than out ob.symbol (suc (length ob.bids)) 0 ob.bids order []
          (omega arith) in
      (_, rw e, record { m = m; run = r; book = refl; left = refl; trades = refl })

  -- `Process` always returns: the fuel of its loop is enough.
  pub process-Runs :
      (out : Outside) (ob : OrderBook) (order : Order)
      → (p : Processed) × (process out ob order ≡ some p) × Runs out ob order p (is_buy order)
  unfolding process process_side
  process-Runs out ob order = process_side-Runs (is_buy order) out ob order
