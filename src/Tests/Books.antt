-- ===== src/Tests/Books.antt =====
-- The matching engine at a book with two asks and a bid.
use cyptocurrency_exchange_b.Prelude.{◌≡◌, refl, ◌⊎◌, not, some, none, [], ◌∷◌, arith}
use cyptocurrency_exchange_b.Prelude.Int.{pos, ◌+ℤ◌, ◌-ℤ◌, ◌*ℤ◌}
use cyptocurrency_exchange_b.Decimal.{value}
use cyptocurrency_exchange_b.Engine.Types.{side_sell}
use cyptocurrency_exchange_b.Engine.OrderBook.{
  add_order, remove_order, estimate_market_buy_required_funds,
}
use cyptocurrency_exchange_b.Engine.OrderBook.Sorted.{
  IsSorted, Joins, side_of, is_buy, add_order-priority,
}
use cyptocurrency_exchange_b.Engine.OrderBook.Removal.{Removes, remove_order-exact}
use cyptocurrency_exchange_b.Engine.Matching.{
  Engine, new_engine, get_order_book_snapshot, estimate_required_funds, Processed, process,
}
use cyptocurrency_exchange_b.Engine.Matching.Process.{misses_of}
use cyptocurrency_exchange_b.Engine.Matching.Fills.{waiting, traded, Dropped}
use cyptocurrency_exchange_b.Engine.Matching.Priority.{Walks}
use cyptocurrency_exchange_b.Engine.Matching.Valid.{IsValid, process-IsValid}
use cyptocurrency_exchange_b.Engine.Matching.Outcome.{seen, process-conserves, process-Walks}
use cyptocurrency_exchange_b.Engine.Matching.Funds.{paid, estimate-process}
use cyptocurrency_exchange_b.OrderService.Placing.{estimate_loop, estimate_from_snapshot_asks}
use cyptocurrency_exchange_b.OrderService.Placing.Estimate.{estimate-snapshot}
use cyptocurrency_exchange_b.Engine.Manager.{
  EngineManager, find_engine, get_engine, get_engine-registers,
}
use cyptocurrency_exchange_b.Tests.Data.{whole_numbers, outside, book, bid, market_bid}

abbrev pub engines : EngineManager
engines = ("BTC-USD", book) ∷ []

book-IsSorted : IsSorted book
book-IsSorted = record { bids = (tt, tt); asks = ((omega arith, tt), (tt, tt)) }

pub book-IsValid : IsValid book
book-IsValid = record {
  sorted = book-IsSorted;
  bids = (omega arith, tt);
  asks = (omega arith, (omega arith, tt));
  apart = ((omega arith, (omega arith, tt)), tt);
}

process-IsValid_example : (p : Processed) × (process outside book bid ≡ some p) × IsValid p.book
process-IsValid_example = process-IsValid outside book bid book-IsValid (omega arith)

process-conserves_example :
    (p : Processed) × (process outside book bid ≡ some p)
    × (waiting (side_of (not (is_buy bid)) book)
        ≡ waiting (side_of (not (is_buy bid)) p.book) +ℤ traded p.trades)
    × ((value bid.quantity ≡ value p.order.quantity +ℤ traded p.trades)
        ⊎ Dropped bid (seen (is_buy bid) p))
process-conserves_example = process-conserves outside book bid

process-Walks_example :
    (p : Processed) × (process outside book bid ≡ some p)
    × Walks (misses_of (is_buy bid)) (side_of (not (is_buy bid)) book) bid [] (seen (is_buy bid) p)
process-Walks_example = process-Walks outside book bid

estimated : estimate_market_buy_required_funds book (pos 4) ≡ some (pos 401)
unfolding estimate_market_buy_required_funds ◌+ℤ◌ ◌-ℤ◌ ◌*ℤ◌
estimated = refl

estimate-process_example :
    (p : Processed) × (process outside book market_bid ≡ some p)
    × (value p.order.quantity ≡ pos 0)
    × (paid p.trades ≡ pos 401)
estimate-process_example =
    estimate-process outside book market_bid (pos 401) refl refl (omega arith, (omega arith, tt))
      estimated

quoted : estimate_from_snapshot_asks (get_order_book_snapshot book 2).asks (pos 4) ≡ some (pos 401)
unfolding estimate_from_snapshot_asks estimate_loop get_order_book_snapshot ◌+ℤ◌ ◌-ℤ◌ ◌*ℤ◌
quoted = refl

estimate-snapshot_example : estimate_required_funds book (pos 4) ≡ some (pos 401)
estimate-snapshot_example = estimate-snapshot (pos 401) book 2 (pos 4) quoted

get_engine-registers_example :
    (find_engine "ETH-USD" (get_engine "ETH-USD" engines).1 ≡ some (get_engine "ETH-USD" engines).0)
    × (find_engine "BTC-USD" (get_engine "ETH-USD" engines).1 ≡ find_engine "BTC-USD" engines)
    × (((e : Engine) × (find_engine "ETH-USD" engines ≡ some e)
          × ((get_engine "ETH-USD" engines).0 ≡ e))
        ⊎ ((find_engine "ETH-USD" engines ≡ none)
            × ((get_engine "ETH-USD" engines).0 ≡ new_engine "ETH-USD")))
get_engine-registers_example = get_engine-registers "ETH-USD" "BTC-USD" engines refl

add_order-priority_example :
    Joins (is_buy bid) bid (side_of (is_buy bid) book) (side_of (is_buy bid) (add_order book bid))
    × (side_of (not (is_buy bid)) (add_order book bid) ≡ side_of (not (is_buy bid)) book)
add_order-priority_example = add_order-priority book bid book-IsSorted

remove_order-exact_example :
    Removes 10 book.asks (remove_order book 10 side_sell).0.asks (remove_order book 10 side_sell).1
    × ((remove_order book 10 side_sell).0.bids ≡ book.bids)
remove_order-exact_example = remove_order-exact book 10 side_sell
