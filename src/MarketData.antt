-- ===== src/MarketData.antt =====
-- internal/marketdata: the queries, and the handlers that pass events on to the WebSocket clients.
pub mod Limits
use cyptocurrency_exchange_b.Prelude.{
  ℕ, String, Bool, true, false, not, Option, none, some, List, [], ◌∷◌, ◌++◌, ltb, if◌then◌else◌,
}
use cyptocurrency_exchange_b.Prelude.Int.{ℤ, pos, pos_part, ltb_ℤ}
use cyptocurrency_exchange_b.Decimal.{DecimalLib}
use cyptocurrency_exchange_b.Engine.Types.{Trade, OrderBookSnapshot, new_order_book_snapshot}
use cyptocurrency_exchange_b.Domain.Models.{Order, KLine}
use cyptocurrency_exchange_b.Domain.Events.{TradeExecutedEvent}
use cyptocurrency_exchange_b.Store.World.{Action}
use cyptocurrency_exchange_b.Store.Trades as Trades
use cyptocurrency_exchange_b.Store.Cache.{Cache, set_order_book_snapshot}
use cyptocurrency_exchange_b.OrderService.Symbols.{to_upper}

-- The limit of a query: a standard one if none is given, and a greatest one.
unfoldable pub clamp_limit : ℕ → ℕ → ℤ → ℕ
clamp_limit standard greatest limit =
    let asked = if ltb_ℤ (pos 0) limit then pos_part limit else standard in
    if ltb greatest asked then greatest else asked

module _ ⦃lib : DecimalLib⦄ where
  -- `cached` is what the cache has: `none` where it misses, fails, or is not configured.
  unfoldable pub get_order_book : Option OrderBookSnapshot → String → OrderBookSnapshot
  get_order_book none symbol = new_order_book_snapshot symbol
  get_order_book (some snapshot) symbol = snapshot

  unfoldable pub get_klines : String → String → ℤ → Action (List KLine)
  unfolding clamp_limit
  get_klines symbol interval limit =
      Trades.get_klines (to_upper symbol) interval (clamp_limit 100 1000 limit)

  unfoldable pub get_recent_trades : String → ℤ → Action (List Trade)
  unfolding clamp_limit
  get_recent_trades symbol limit =
      Trades.get_recent_trades (to_upper symbol) (clamp_limit 50 100 limit)

  -- A call of the listener, which writes to the WebSocket clients.
  pub data Push : Type 0 where
    on_trade : Trade → Push
    on_order_update : Order → Push
    on_order_book_update : OrderBookSnapshot → Push

  pub record Subscriber : Type 0 where
    pub has_listener : Bool
    pub has_cache_repo : Bool
    pub cache : Cache
    pub pushed : List Push

  abbrev pub push : Push → Subscriber → Subscriber
  push p s = if s.has_listener then record s { pushed = s.pushed ++ p ∷ [] } else s

  -- an error of the cache is only logged; `fails` says that Redis does not answer
  abbrev pub store_snapshot : Bool → OrderBookSnapshot → Subscriber → Subscriber
  store_snapshot fails snapshot s =
      if s.has_cache_repo
      then (if fails then s else record s { cache = (set_order_book_snapshot snapshot s.cache).1 })
      else s

  -- The handlers take what `json.Unmarshal` read, and return false for its error. An event may have
  -- no snapshot, or no order.
  unfoldable pub handle_order_book :
      Bool → Option (Option OrderBookSnapshot) → Subscriber → Bool × Subscriber
  unfolding set_order_book_snapshot
  handle_order_book fails none s = (false, s)
  handle_order_book fails (some none) s = (true, s)
  handle_order_book fails (some (some snapshot)) s =
      (true, push (on_order_book_update snapshot) (store_snapshot fails snapshot s))

  abbrev pub trade_of : TradeExecutedEvent → Trade
  trade_of event = record {
    id = event.trade_id;
    symbol = event.symbol;
    maker_order_id = event.maker_order_id;
    taker_order_id = event.taker_order_id;
    price = event.price;
    quantity = event.quantity;
    created_at = 0;
  }

  unfoldable pub handle_trade : Option TradeExecutedEvent → Subscriber → Bool × Subscriber
  handle_trade none s = (false, s)
  handle_trade (some event) s = (true, push (on_trade (trade_of event)) s)

  unfoldable pub handle_order_updated : Option (Option Order) → Subscriber → Bool × Subscriber
  handle_order_updated none s = (false, s)
  handle_order_updated (some none) s = (true, s)
  handle_order_updated (some (some order)) s = (true, push (on_order_update order) s)
