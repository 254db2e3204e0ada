-- ===== src/MatchingService.antt =====
-- internal/matching/event_subscribers.go: the consumer of the topic of orders, and the elector's
-- callbacks of cmd/matching-engine/main.go. A pause between two attempts is not a step.
pub mod Bus
pub mod Engines
pub mod Publishing
pub mod Updates
pub mod Wanted
pub mod Placed
pub mod Canceled
pub mod Keeps
pub mod Rests
pub mod Restore
use cyptocurrency_exchange_b.Prelude.{
  ℕ, String, Bool, true, false, ◌&&◌, ◌||◌, Option, none, some, List, [], ◌∷◌, map, ltb, ◌==◌,
  str_eq, length, if◌then◌else◌,
}
use cyptocurrency_exchange_b.Decimal.{DecimalLib, is_zero}
use cyptocurrency_exchange_b.Engine.Types.{
  Order, OrderSide, Trade, OrderBookSnapshot, new_order, new_market_order, side_buy, side_sell,
  type_limit, type_market,
}
use cyptocurrency_exchange_b.Engine.Matching.{
  Engine, Processed, process, cancel, get_order_book_snapshot,
}
use cyptocurrency_exchange_b.Engine.Manager.{EngineManager, get_engine, get_symbols}
use cyptocurrency_exchange_b.Domain.Events.{
  Topic, Event, OrderPlacedEvent, OrderCancelRequestedEvent, SettlementRequestedEvent,
  settlement_requested, trade_executed, order_canceled, order_book_updated,
}
use cyptocurrency_exchange_b.Store.Cache.{set_order_book_snapshot}
use cyptocurrency_exchange_b.MatchingService.Bus.{
  Outcome, done, ctx_canceled, bad_payload, Sent, Subscriber, Step, called, load_token, then_step,
  publish_retry, publish_each, publish_once,
}

-- What `json.Unmarshal` reads in a message: the type in its envelope, and the event itself.
pub record Codec ⦃lib : DecimalLib⦄ : Type 1 where
  pub Bytes : Type 0
  pub event_type : Bytes → Option String
  pub order_placed : Bytes → Option OrderPlacedEvent
  pub order_cancel_requested : Bytes → Option OrderCancelRequestedEvent

module _ ⦃lib : DecimalLib⦄ where
  abbrev pub match_side : OrderSide → OrderSide
  match_side side = if side == side_buy then side_buy else side_sell

  unfoldable pub convert_to_matching_order : OrderPlacedEvent → Order
  convert_to_matching_order event =
      if event.type == type_limit
      then new_order event.order_id event.user_id (match_side event.side) event.price event.quantity
      else new_market_order event.order_id event.user_id (match_side event.side) event.quantity

  -- A call through the engine's pointer changes the engine that is registered under the symbol.
  unfoldable pub write_engine : String → Engine → EngineManager → EngineManager
  write_engine symbol e [] = []
  write_engine symbol e ((s, old) ∷ engines) =
      let rest = write_engine symbol e engines in
      if str_eq s symbol then (s, e) ∷ engines else (s, old) ∷ rest

  abbrev pub settlement_event : OrderPlacedEvent → Processed → ℕ → SettlementRequestedEvent
  settlement_event event p token = record {
    symbol = event.symbol;
    taker_order_id = event.order_id;
    amount_locked = event.amount_locked;
    locked_currency = event.locked_currency;
    remaining_qty = p.order.quantity;
    trades = p.trades;
    fencing_token = token;
  }

  abbrev pub settlement_message : OrderPlacedEvent → Processed → ℕ → Sent
  settlement_message event p token = record {
    topic = Topic.settlements;
    key = event.symbol;
    event = settlement_requested (settlement_event event p token);
  }

  -- `CreatedAt` is left at 0
  abbrev pub trade_message : String → Trade → Sent
  trade_message symbol t = record {
    topic = Topic.trades;
    key = symbol;
    event = trade_executed (record {
      symbol = symbol;
      trade_id = t.id;
      maker_order_id = t.maker_order_id;
      taker_order_id = t.taker_order_id;
      price = t.price;
      quantity = t.quantity;
      created_at = 0;
    });
  }

  -- a trade, a market order, or nothing left (as self-trade prevention leaves it)
  abbrev pub needs_settlement : OrderPlacedEvent → Processed → Bool
  needs_settlement event p =
      ltb 0 (length p.trades) || (event.type == type_market || is_zero p.order.quantity)

  -- A step that starts with a load of the token.
  abbrev pub with_token : (ℕ → Step) → Step
  with_token k s = let (token, s') = load_token s in k token s'

  unfoldable pub publish_results : ℕ → OrderPlacedEvent → Processed → Step
  unfolding load_token publish_retry publish_each
  publish_results fuel event p s =
      if needs_settlement event p && s.has_event_bus
      then with_token
          (λ token.
            publish_each fuel
              (settlement_message event p token ∷ map (trade_message event.symbol) p.trades))
          s
      else some (done, s)

  abbrev pub write_cache : Bool → OrderBookSnapshot → Subscriber → Subscriber
  write_cache fails snapshot s =
      if fails then s else record s { cache = (set_order_book_snapshot snapshot s.cache).1 }

  abbrev pub update_cache : OrderBookSnapshot → Subscriber → Subscriber
  update_cache snapshot s =
      if s.has_cache_repo then write_cache (s.env.cache_fails s.calls) snapshot (called s) else s

  abbrev pub book_message : String → OrderBookSnapshot → Sent
  book_message symbol snapshot = record {
    topic = Topic.order_book;
    key = symbol;
    event = order_book_updated (record { symbol = symbol; snapshot = snapshot });
  }

  abbrev pub publish_book : String → OrderBookSnapshot → Subscriber → Subscriber
  publish_book symbol snapshot s =
      if s.has_event_bus then publish_once (book_message symbol snapshot) s else s

  unfoldable pub on_order_book_update : String → OrderBookSnapshot → Subscriber → Subscriber
  unfolding load_token publish_once set_order_book_snapshot
  on_order_book_update symbol snapshot s =
      let (token, s1) = load_token s in
      let stamped : OrderBookSnapshot = record snapshot { fencing_token = token } in
      publish_book symbol stamped (update_cache stamped s1)

  abbrev pub book_depth : ℕ
  book_depth = 20

  abbrev pub update_book : String → Engine → Step
  update_book symbol e s =
      some (done, on_order_book_update symbol (get_order_book_snapshot e book_depth) s)

  -- after `Process` has ended
  unfoldable pub finish_order : ℕ → OrderPlacedEvent → EngineManager → Processed → Step
  unfolding publish_results on_order_book_update write_engine get_order_book_snapshot
  finish_order fuel event engines p s =
      then_step
        (publish_results fuel event p
          (record (called s) { engine_manager = write_engine event.symbol p.book engines }))
        (update_book event.symbol p.book)

  abbrev pub processed_step : Option Processed → (Processed → Step) → Step
  processed_step none k s = none
  processed_step (some p) k s = k p s

  unfoldable pub handle_order_placed : ℕ → OrderPlacedEvent → Step
  unfolding convert_to_matching_order get_engine finish_order
  handle_order_placed fuel event s =
      let (e, engines) = get_engine event.symbol s.engine_manager in
      processed_step (process (s.env.outside s.calls) e (convert_to_matching_order event))
        (finish_order fuel event engines) s

  abbrev pub canceled_message : OrderCancelRequestedEvent → ℕ → Sent
  canceled_message event token = record {
    topic = Topic.settlements;
    key = event.symbol;
    event = order_canceled (record {
      symbol = event.symbol;
      order_id = event.order_id;
      user_id = event.user_id;
      fencing_token = token;
    });
  }

  abbrev pub publish_canceled : ℕ → OrderCancelRequestedEvent → Step
  publish_canceled fuel event s =
      if s.has_event_bus
      then with_token (λ token. publish_retry fuel (canceled_message event token)) s
      else some (done, s)

  unfoldable pub handle_order_cancel_requested : ℕ → OrderCancelRequestedEvent → Step
  unfolding get_engine write_engine load_token publish_retry on_order_book_update
      get_order_book_snapshot
  handle_order_cancel_requested fuel event s =
      let (e, engines) = get_engine event.symbol s.engine_manager in
      let (e', found) = cancel e event.order_id (match_side event.side) in
      let s' : Subscriber = record s { engine_manager = write_engine event.symbol e' engines } in
      if found
      then then_step (publish_canceled fuel event s') (update_book event.symbol e')
      else some (done, s')

  abbrev pub decoded : {A : Type 0} → Option A → (A → Step) → Step
  decoded none k s = some (bad_payload, s)
  decoded (some a) k s = k a s

  -- by the envelope's type; a message of any other type is skipped
  unfoldable pub dispatch : (c : Codec) → ℕ → c.Bytes → String → Step
  unfolding handle_order_placed handle_order_cancel_requested
  dispatch c fuel value event_type s =
      if str_eq event_type "order.placed"
      then decoded (c.order_placed value) (handle_order_placed fuel) s
      else if str_eq event_type "order.cancel_requested"
      then decoded (c.order_cancel_requested value) (handle_order_cancel_requested fuel) s
      else some (done, s)

  unfoldable pub handle_events : (c : Codec) → ℕ → c.Bytes → Step
  unfolding load_token dispatch
  handle_events c fuel value s =
      let (token, s') = load_token s in
      if token == 0
      then some (done, s')
      else decoded (c.event_type value) (dispatch c fuel value) s'

  -- `symbols` is what `GetSymbols` listed
  pub sync_each : ℕ → List String → Subscriber → Subscriber
  unfolding on_order_book_update get_order_book_snapshot get_engine
  sync_each depth [] s = s
  sync_each depth (symbol ∷ symbols) s =
      let (e, engines) = get_engine symbol s.engine_manager in
      sync_each depth symbols (
        on_order_book_update symbol (get_order_book_snapshot e depth)
          (record s { engine_manager = engines }))

  unfoldable pub sync_recovered_order_books : ℕ → Subscriber → List String × Subscriber
  unfolding sync_each
  sync_recovered_order_books depth s =
      (get_symbols s.engine_manager, sync_each depth (get_symbols s.engine_manager) s)
