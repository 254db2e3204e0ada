-- ===== src/Engine/Matching.antt =====
-- internal/matching/engine/engine.go: the engine of one symbol. A call holds the mutex throughout,
-- so calls are whole steps; an order that is passed by pointer is returned beside the new state.
pub mod Run
pub mod Fills
pub mod Priority
pub mod Keeps
pub mod Process
pub mod Valid
pub mod Outcome
pub mod Funds
pub mod Resting
pub mod Cancel
use cyptocurrency_exchange_b.Prelude.{
  ℕ, zero, suc, ◌+◌, String, Bool, true, false, not, ◌&&◌, Option, none, some, List, [], ◌∷◌, ◌++◌,
  map, take, length, ◌==◌, ltb, if◌then◌else◌,
}
use cyptocurrency_exchange_b.Decimal.{
  DecimalLib, Decimal, zero_dec, sub, less_than, greater_than, is_zero, is_positive,
}
use cyptocurrency_exchange_b.Engine.Types.{
  Uuid, OrderSide, side_buy, type_market, Order, Trade, OrderBookLevel, OrderBookSnapshot,
}
use cyptocurrency_exchange_b.Engine.OrderBook.{
  OrderBook, new_order_book, add_order, remove_order, min_qty, estimate_market_buy_required_funds,
}

-- What `uuid.NewV7` and `time.Now().UnixMilli` return in one call, the n-th trade's at n.
pub record Outside : Type 0 where
  pub new_v7 : ℕ → Uuid
  pub unix_milli : ℕ → ℕ

module _ ⦃lib : DecimalLib⦄ where
  -- The variables of a matching loop: the other side of the book, the incoming order, the trades.
  pub record Matched : Type 0 where
    pub makers : List Order
    pub taker : Order
    pub trades : List Trade

  abbrev pub make_trade : Outside → String → ℕ → Order → Order → Decimal → Trade
  make_trade out symbol n best taker match_qty = record {
    id = out.new_v7 n;
    symbol = symbol;
    maker_order_id = best.id;
    taker_order_id = taker.id;
    price = best.price;
    quantity = match_qty;
    created_at = out.unix_milli n;
  }

  -- The first element after its quantity was lowered; it is removed at quantity 0.
  abbrev pub after_fill : Order → Decimal → List Order → List Order
  after_fill best match_qty rest =
      let left = sub best.quantity match_qty in
      if is_zero left then rest else record best { quantity = left } ∷ rest

  -- The body that `matchBuyOrder` and `matchSellOrder` share up to the side of the book and the
  -- price test `misses`; `n` counts the trades. `none` is a loop that has not ended within its fuel.
  pub match_loop :
      (Decimal → Decimal → Bool)
      → Outside
      → String
      → ℕ
      → ℕ
      → List Order
      → Order
      → List Trade
      → Option Matched
  match_loop misses out symbol zero n makers taker trades = none
  match_loop misses out symbol (suc fuel) n [] taker trades =
      some (record { makers = []; taker = taker; trades = trades })
  match_loop misses out symbol (suc fuel) n (best ∷ rest) taker trades =
      let match_qty = min_qty taker.quantity best.quantity in
      let left = sub taker.quantity match_qty in
      let makers' = after_fill best match_qty rest in
      let taker' = record taker { quantity = left } in
      let trades' = trades ++ make_trade out symbol n best taker match_qty ∷ [] in
      let again = match_loop misses out symbol fuel (suc n) makers' taker' trades' in
      if taker.user_id == best.user_id
      then some (record {
        makers = best ∷ rest;
        taker = record taker { quantity = zero_dec };
        trades = trades;
      })
      else if not (taker.type == type_market) && misses taker.price best.price
      then some (record { makers = best ∷ rest; taker = taker; trades = trades })
      else if is_zero left
      then some (record { makers = makers'; taker = taker'; trades = trades' })
      else again

  -- one round for each maker, and one that finds the side empty
  pub match_buy_order : Outside → OrderBook → Order → Option Matched
  unfolding match_loop
  match_buy_order out ob buy_order =
      match_loop less_than out ob.symbol (suc (length ob.asks)) 0 ob.asks buy_order []

  pub match_sell_order : Outside → OrderBook → Order → Option Matched
  unfolding match_loop
  match_sell_order out ob sell_order =
      match_loop greater_than out ob.symbol (suc (length ob.bids)) 0 ob.bids sell_order []

  -- The state after `Process`, the order as the caller sees it through its pointer, and the trades.
  pub record Processed : Type 0 where
    pub book : OrderBook
    pub order : Order
    pub trades : List Trade

  pub rest_order : OrderBook → Order → OrderBook
  rest_order ob order =
      if is_positive order.quantity && not (order.type == type_market)
      then add_order ob order
      else ob

  unfoldable pub process : Outside → OrderBook → Order → Option Processed
  unfolding match_buy_order match_sell_order rest_order
  process out ob order =
      if order.side == side_buy
      then (elim (match_buy_order out ob order) [
        | none ↦ none
        | some m ↦ some (record {
          book = rest_order (record ob { asks = m.makers }) m.taker;
          order = m.taker;
          trades = m.trades;
        })
      ])
      else (elim (match_sell_order out ob order) [
        | none ↦ none
        | some m ↦ some (record {
          book = rest_order (record ob { bids = m.makers }) m.taker;
          order = m.taker;
          trades = m.trades;
        })
      ])

  -- `Engine` is the book behind a mutex.
  abbrev pub Engine : Type 0
  Engine = OrderBook

  abbrev pub new_engine : String → Engine
  new_engine symbol = new_order_book symbol

  pub restore_order : Engine → Order → Engine
  restore_order e order = add_order e order

  pub cancel : Engine → Uuid → OrderSide → Engine × Bool
  cancel e order_id side = remove_order e order_id side

  abbrev pub level : Order → OrderBookLevel
  level o = record { price = o.price; quantity = o.quantity }

  -- a depth of 0 is no limit
  abbrev pub to_depth : ℕ → List Order → List Order
  to_depth depth os = if ltb 0 depth then take depth os else os

  unfoldable pub get_order_book_snapshot : Engine → ℕ → OrderBookSnapshot
  get_order_book_snapshot e depth = record {
    symbol = e.symbol;
    bids = map level (to_depth depth e.bids);
    asks = map level (to_depth depth e.asks);
    fencing_token = 0;
  }

  unfoldable pub estimate_required_funds : Engine → Decimal → Option Decimal
  estimate_required_funds e quantity = estimate_market_buy_required_funds e quantity
