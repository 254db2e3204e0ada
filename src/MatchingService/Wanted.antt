-- ===== src/MatchingService/Wanted.antt =====
-- What a placed order is taken as, and what should be sent of its results, said without the code's
-- own functions.
use cyptocurrency_exchange_b.Prelude.{
  ℕ, String, ◌≡◌, refl, Bool, true, false, ◌&&◌, ◌||◌, List, [], ◌∷◌, map, length, ltb, ◌==◌,
  if◌then◌else◌,
}
use cyptocurrency_exchange_b.Decimal.{DecimalLib, zero_dec, is_zero}
use cyptocurrency_exchange_b.Engine.Types.{
  Order, Trade, OrderSide, side_buy, side_sell, type_limit, type_market, new_order,
  new_market_order,
}
use cyptocurrency_exchange_b.Engine.Matching.{Engine, Processed, get_order_book_snapshot}
use cyptocurrency_exchange_b.Domain.Events.{
  Topic, OrderPlacedEvent, settlement_requested, trade_executed, order_book_updated,
}
use cyptocurrency_exchange_b.MatchingService.Bus.{Sent}
use cyptocurrency_exchange_b.MatchingService.{convert_to_matching_order}

module _ ⦃lib : DecimalLib⦄ where
  -- The order that an event describes: a limit order with its price, or a market order without one.
  abbrev pub taken_as : OrderPlacedEvent → Order
  taken_as event = record {
    id = event.order_id;
    user_id = event.user_id;
    side = if event.side == side_buy then side_buy else side_sell;
    type = if event.type == type_limit then type_limit else type_market;
    price = if event.type == type_limit then event.price else zero_dec;
    quantity = event.quantity;
  }

  pub convert-taken_as :
      (event : OrderPlacedEvent) → convert_to_matching_order event ≡ taken_as event
  unfolding convert_to_matching_order
  convert-taken_as event = chosen (event.type == type_limit)
    where
      side : OrderSide
      side = if event.side == side_buy then side_buy else side_sell

      chosen :
          (limit : Bool)
          → (if limit
              then new_order event.order_id event.user_id side event.price event.quantity
              else new_market_order event.order_id event.user_id side event.quantity)
            ≡ record {
              id = event.order_id;
              user_id = event.user_id;
              side = side;
              type = if limit then type_limit else type_market;
              price = if limit then event.price else zero_dec;
              quantity = event.quantity;
            }
      chosen true = refl
      chosen false = refl

  -- The order's settlement is to be asked for: it traded, is a market order, or has nothing left.
  abbrev pub is_settled : OrderPlacedEvent → Processed → Bool
  is_settled event p =
      ltb 0 (length p.trades) || (event.type == type_market || is_zero p.order.quantity)

  -- The request for settlement: all trades and the rest, what was locked, and the token.
  abbrev pub request : OrderPlacedEvent → Processed → ℕ → Sent
  request event p token = record {
    topic = Topic.settlements;
    key = event.symbol;
    event = settlement_requested (record {
      symbol = event.symbol;
      taker_order_id = event.order_id;
      amount_locked = event.amount_locked;
      locked_currency = event.locked_currency;
      remaining_qty = p.order.quantity;
      trades = p.trades;
      fencing_token = token;
    });
  }

  abbrev pub told_trade : String → Trade → Sent
  told_trade symbol t = record {
    topic = Topic.trades;
    key = symbol;
    event = trade_executed (record {
      symbol = symbol;
      trade_id = t.id;
      maker_order_id = t.maker_order_id;
      taker_order_id = t.taker_order_id;
      price = t.price;
      quantity = t.quantity;
      created_at = 0;
    });
  }

  -- What is sent of the results: the request under a token, and each trade.
  abbrev pub results : OrderPlacedEvent → Processed → ℕ → List Sent
  results event p token = request event p token ∷ map (told_trade event.symbol) p.trades

  abbrev pub wanted : Bool → OrderPlacedEvent → Processed → ℕ → List Sent
  wanted has_event_bus event p token =
      if is_settled event p && has_event_bus then results event p token else []

  -- The book of an engine to a depth of 20, under a token.
  abbrev pub book_of : String → Engine → ℕ → Sent
  book_of symbol e token = record {
    topic = Topic.order_book;
    key = symbol;
    event = order_book_updated (record {
      symbol = symbol;
      snapshot = record (get_order_book_snapshot e 20) { fencing_token = token };
    });
  }
