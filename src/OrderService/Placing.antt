-- ===== src/OrderService/Placing.antt =====
-- internal/order/service.go: placing orders, one or a batch, and asking for a cancellation. What is
-- returned with an order is the outbox message that the hot path then publishes. `outboxRepo` and
-- `eventBus` are set, as cmd/order-service/main.go sets them; the branches for a service without
-- them, which store no message and run no hot path, are not modelled.
pub mod Statements
pub mod Placed
pub mod Cancellation
pub mod Estimate
pub mod Batch
use cyptocurrency_exchange_b.Prelude.{
  ℕ, String, Bool, true, false, not, ◌&&◌, ◌||◌, Option, none, some, List, [], ◌∷◌, str_eq, ◌==◌,
  if◌then◌else◌,
}
use cyptocurrency_exchange_b.Decimal.{
  DecimalLib, Decimal, zero_dec, market_buffer, add, sub, mul, round8, less_than,
  less_than_or_equal, is_zero,
}
use cyptocurrency_exchange_b.Engine.Types.{
  Uuid, OrderBookLevel, OrderBookSnapshot, side_buy, type_limit,
}
use cyptocurrency_exchange_b.Domain.Models.{
  Order, status_new, status_filled, status_canceled, is_symbol_allowed,
}
use cyptocurrency_exchange_b.Domain.Events.{
  OrderPlacedEvent, OrderCancelRequestedEvent, orders, order_placed, order_cancel_requested,
}
use cyptocurrency_exchange_b.Store.World.{
  Error, invalid_quantity, invalid_price, invalid_symbol, symbol_not_allowed, no_liquidity,
  forbidden, not_cancelable, Result, ok, err, Message, Action, pure, raise, exec_tx, now, new_uuid,
  guard, or_raise, ◌>>=◌, ◌>>◌,
}
use cyptocurrency_exchange_b.Store.Accounts.{lock_funds, batch_lock_funds}
use cyptocurrency_exchange_b.Store.Orders.{
  create_order, batch_create_orders, get_order, get_order_for_update,
}
use cyptocurrency_exchange_b.Store.Outbox.{draft, insert, batch_insert, uuid_or_zero}
use cyptocurrency_exchange_b.OrderService.Symbols.{split_symbol, to_upper}

module _ ⦃lib : DecimalLib⦄ where
  -- The loop of `estimateFromSnapshotAsks`, on what is still to buy and what it costs so far.
  unfoldable pub estimate_loop : Decimal → Decimal → List OrderBookLevel → Option Decimal
  estimate_loop remaining total [] = none
  estimate_loop remaining total (ask ∷ asks) =
      let match_qty = if less_than ask.quantity remaining then ask.quantity else remaining in
      let total' = add total (mul ask.price match_qty) in
      let remaining' = sub remaining match_qty in
      let rest = estimate_loop remaining' total' asks in
      if is_zero remaining' then some total' else rest

  unfoldable pub estimate_from_snapshot_asks : List OrderBookLevel → Decimal → Option Decimal
  unfolding estimate_loop
  estimate_from_snapshot_asks asks quantity = estimate_loop quantity zero_dec asks

  module _ (cached : String → Option OrderBookSnapshot) where
    -- `cached` is the snapshot cache: `none` where it misses, fails, or is not configured.
    unfoldable pub estimate_market_buy_funds : String → Decimal → Option Decimal
    unfolding estimate_from_snapshot_asks
    estimate_market_buy_funds symbol quantity = elim (cached symbol) [
      | none ↦ none
      | some snapshot ↦ (elim snapshot.asks [
        | [] ↦ none
        | ask ∷ asks ↦ estimate_from_snapshot_asks (ask ∷ asks) quantity
      ])
    ]

    abbrev pub buffered : String → Option Decimal → Result (String × Decimal)
    buffered quote none = err no_liquidity
    buffered quote (some estimated) = ok (quote, mul estimated market_buffer)

    abbrev pub lock_amount_in : Order → Option (String × String) → Result (String × Decimal)
    lock_amount_in order none = err invalid_symbol
    lock_amount_in order (some (base, quote)) =
        if order.side == side_buy
        then (if order.type == type_limit
            then ok (quote, mul order.price order.quantity)
            else buffered quote (estimate_market_buy_funds order.symbol order.quantity))
        else ok (base, order.quantity)

    unfoldable pub calculate_lock_amount : Order → Result (String × Decimal)
    unfolding estimate_market_buy_funds
    calculate_lock_amount order = lock_amount_in order (split_symbol order.symbol)

  abbrev pub normalized : Order → Order
  normalized order = record order {
    symbol = to_upper order.symbol;
    price = round8 order.price;
    quantity = round8 order.quantity;
  }

  abbrev pub as_new : Uuid → ℕ → Order → Order
  as_new id at order = record order {
    id = id;
    status = status_new;
    filled_quantity = zero_dec;
    created_at = at;
    updated_at = at;
  }

  abbrev pub placed_event : Order → String → Decimal → OrderPlacedEvent
  placed_event order currency amount = record {
    symbol = order.symbol;
    order_id = order.id;
    user_id = order.user_id;
    side = order.side;
    type = order.type;
    price = order.price;
    quantity = order.quantity;
    created_at = order.created_at;
    amount_locked = amount;
    locked_currency = currency;
  }

  abbrev pub placed_draft : Order → String → Decimal → Message
  placed_draft order currency amount =
      draft order.id "order_placed" orders order.symbol
        (order_placed (placed_event order currency amount))

  abbrev pub lifted : {A : Type 0} → Result A → Action A
  lifted r w = (r, w)

  abbrev pub bad_price : Order → Bool
  bad_price order = order.type == type_limit && less_than_or_equal order.price zero_dec

  -- the transaction: funds, order, outbox
  pub place_body : Order → String → Decimal → Action Message
  place_body order currency amount = do
    lock_funds order.user_id currency amount
    create_order order
    guard (is_symbol_allowed order.symbol) symbol_not_allowed
    insert (placed_draft order currency amount)

  abbrev pub place_valid : Order → String × Decimal → Action (Order × Message)
  place_valid order (currency, amount) = do
    id ← new_uuid
    at ← now
    let created = as_new id at order
    msg ← exec_tx (place_body created currency amount)
    pure (created, msg)

  unfoldable pub place_order :
      (String → Option OrderBookSnapshot) → Order → Action (Order × Message)
  unfolding place_body
  place_order cached request = do
    let order = normalized request
    guard (not (less_than_or_equal order.quantity zero_dec)) invalid_quantity
    guard (not (bad_price order)) invalid_price
    locking ← lifted (calculate_lock_amount cached order)
    place_valid order locking

  -- the map of maps of the batch, as a list of its keys and sums
  abbrev pub add_lock :
      Uuid → String → Decimal → List (Uuid × (String × Decimal)) → List (Uuid × (String × Decimal))
  add_lock user_id currency amount [] = (user_id, (currency, add zero_dec amount)) ∷ []
  add_lock user_id currency amount ((u, (c, sum)) ∷ locks) =
      let rest = add_lock user_id currency amount locks in
      if u == user_id && str_eq c currency
      then (u, (c, add sum amount)) ∷ locks
      else (u, (c, sum)) ∷ rest

  -- the orders of a batch one by one: the sums to lock, the orders as they are stored, the messages
  pub prepare_batch :
      (String → Option OrderBookSnapshot)
      → ℕ
      → List (Uuid × (String × Decimal))
      → List Order
      → Action (List (Uuid × (String × Decimal)) × (List Order × List Message))
  prepare_batch cached at locks [] = pure (locks, ([], []))
  prepare_batch cached at locks (request ∷ requests) = do
    let order = normalized request
    guard (not (less_than_or_equal order.quantity zero_dec || bad_price order)) invalid_quantity
    (currency, amount) ← lifted (calculate_lock_amount cached order)
    id ← uuid_or_zero
    let created = as_new id at order
    (locks', (created_all, msgs)) ←
        prepare_batch cached at (add_lock order.user_id currency amount locks) requests
    pure (locks', (created ∷ created_all, placed_draft created currency amount ∷ msgs))

  pub batch_body :
      List (Uuid × (String × Decimal)) → List Order → List Message → Action (List Message)
  batch_body locks created msgs = do
    batch_lock_funds locks
    batch_create_orders created
    batch_insert msgs

  unfoldable pub batch_place_orders :
      (String → Option OrderBookSnapshot) → List Order → Action (List Order × List Message)
  unfolding prepare_batch batch_body
  batch_place_orders cached [] = pure ([], [])
  batch_place_orders cached (request ∷ requests) = do
    at ← now
    (locks, (created, drafts)) ← prepare_batch cached at [] (request ∷ requests)
    msgs ← exec_tx (batch_body locks created drafts)
    pure (created, msgs)

  abbrev pub is_closed : Order → Bool
  is_closed order = order.status == status_filled || order.status == status_canceled

  abbrev pub cancel_draft : Uuid → Order → Message
  cancel_draft order_id order = draft order.id "order_cancel_requested" orders order.symbol (
      order_cancel_requested (record {
        symbol = order.symbol;
        order_id = order_id;
        side = order.side;
        user_id = order.user_id;
      }))

  pub cancel_request_body : Uuid → Action Message
  cancel_request_body order_id = do
    order ← get_order_for_update order_id
    guard (not (is_closed order)) not_cancelable
    insert (cancel_draft order_id order)

  unfoldable pub cancel_order : Uuid → Uuid → Action Message
  unfolding cancel_request_body
  cancel_order order_id user_id = do
    order ← get_order order_id
    guard (order.user_id == user_id) forbidden
    guard (not (is_closed order)) not_cancelable
    exec_tx (cancel_request_body order_id)
