-- ===== src/Tests/Data.antt =====
-- A book, a database and an environment for the tests.
use cyptocurrency_exchange_b.Prelude.{ℕ, String, true, false, Option, none, some, [], ◌∷◌}
use cyptocurrency_exchange_b.Prelude.Int.{ℤ, pos}
use cyptocurrency_exchange_b.Decimal.{DecimalLib}
use cyptocurrency_exchange_b.Decimal.Whole.{whole}
use cyptocurrency_exchange_b.Engine.Types.{
  Order, Trade, OrderBookSnapshot, new_order, new_market_order, side_buy, side_sell, type_limit,
}
use cyptocurrency_exchange_b.Engine.OrderBook.{OrderBook}
use cyptocurrency_exchange_b.Engine.Matching.{Outside}
use cyptocurrency_exchange_b.Domain.Models as Models
use cyptocurrency_exchange_b.Domain.Models.{Account, status_new}
use cyptocurrency_exchange_b.Domain.Events.{SettlementRequestedEvent, OrderCanceledEvent}
use cyptocurrency_exchange_b.Store.World.{Env, Db, World, LeaderLock}

instance abbrev pub whole_numbers : DecimalLib
whole_numbers = whole

abbrev pub outside : Outside
outside = record { new_v7 = λ n. n; unix_milli = λ n. n }

-- user 2 sells 3 at 100 and 5 at 101
abbrev pub book : OrderBook
book = record {
  symbol = "BTC-USD";
  bids = new_order 9 3 side_buy (pos 90) (pos 1) ∷ [];
  asks =
      new_order 10 2 side_sell (pos 100) (pos 3) ∷ new_order 11 2 side_sell (pos 101) (pos 5) ∷ [];
}

-- user 1 buys 4, at 100 or at the market
abbrev pub bid : Order
bid = new_order 12 1 side_buy (pos 100) (pos 4)

abbrev pub market_bid : Order
market_bid = new_market_order 12 1 side_buy (pos 4)

abbrev account : ℕ → String → ℤ → ℤ → Account
account user_id currency balance locked = record {
  id = 0;
  user_id = user_id;
  currency = currency;
  balance = balance;
  locked = locked;
  created_at = 0;
  updated_at = 0;
}

abbrev order : ℕ → ℕ → ℕ → Models.Order
order id user_id side = record {
  id = id;
  user_id = user_id;
  symbol = "BTC-USD";
  side = side;
  type = type_limit;
  price = pos 100;
  quantity = pos 3;
  filled_quantity = pos 0;
  status = status_new;
  created_at = 0;
  updated_at = 0;
}

abbrev pub leader : LeaderLock
leader = record {
  partition = "matching-engine:global";
  leader_id = "a";
  fencing_token = 5;
  expires_at = 0;
}

abbrev pub db : Db
db = record {
  users = [];
  accounts =
      account 1 "USD" (pos 700) (pos 300)
      ∷ account 1 "BTC" (pos 0) (pos 0)
      ∷ account 2 "USD" (pos 0) (pos 0)
      ∷ account 2 "BTC" (pos 7) (pos 3)
      ∷ [];
  orders = order 20 1 side_buy ∷ order 21 2 side_sell ∷ [];
  trades = [];
  outbox = [];
  locks = leader ∷ [];
}

abbrev pub env : Env
env = record {
  fails = λ _. false;
  unix_milli = λ n. n;
  new_v7 = λ n. some n;
  publishes = λ _. true;
}

abbrev pub world : World
world = record { db = db; calls = 0; env = env; bus = [] }

abbrev pub trade : Trade
trade = record {
  id = 50;
  symbol = "BTC-USD";
  maker_order_id = 21;
  taker_order_id = 20;
  price = pos 100;
  quantity = pos 3;
  created_at = 0;
}

abbrev pub settlement : ℕ → SettlementRequestedEvent
settlement fencing_token = record {
  symbol = "BTC-USD";
  taker_order_id = 20;
  amount_locked = pos 300;
  locked_currency = "USD";
  remaining_qty = pos 0;
  trades = trade ∷ [];
  fencing_token = fencing_token;
}

abbrev pub cancellation : OrderCanceledEvent
cancellation = record { symbol = "BTC-USD"; order_id = 20; user_id = 1; fencing_token = 5 }

-- a request with a lower-case symbol, and a cache without snapshots
abbrev pub request : Models.Order
request = record (order 0 1 side_buy) { symbol = "btc-usd" }

abbrev pub no_snapshots : String → Option OrderBookSnapshot
no_snapshots symbol = none
