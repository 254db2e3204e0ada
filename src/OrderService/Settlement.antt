-- ===== src/OrderService/Settlement.antt =====
-- internal/order/event_subscribers.go: the consumer of settlement events. A transaction's locked
-- orders are a list that is read and written by ID, so two names of one order see the same row.
pub mod Net
pub mod Backed
pub mod Reads
pub mod Prepare
pub mod Writes
pub mod Conserves
pub mod Stored
pub mod Stale
use mathlib.Core.Option
use cyptocurrency_exchange_b.Prelude.{
  ℕ, String, Bool, true, false, not, ◌&&◌, ◌||◌, Option, none, some, List, [], ◌∷◌, ◌++◌, map, ltb,
  str_eq, str_lt, ◌==◌, if◌then◌else◌,
}
use cyptocurrency_exchange_b.Decimal.{
  DecimalLib, Decimal, zero_dec, add, sub, mul, neg, round8, greater_than, equal, is_zero,
}
use cyptocurrency_exchange_b.Engine.Types.{Uuid, Trade, side_buy, type_market}
use cyptocurrency_exchange_b.Engine.OrderBook.{slice_stable}
use cyptocurrency_exchange_b.Domain.Models.{
  Order, OrderStatus, status_new, status_partially_filled, status_filled, status_canceled,
}
use cyptocurrency_exchange_b.Domain.Events.{SettlementRequestedEvent, OrderCanceledEvent}
use cyptocurrency_exchange_b.Store.World.{
  Error, stale_settlement_event, idempotency_skip, missing_order, invalid_symbol, no_rows, Result,
  ok, err, World, Action, pure, raise, exec_tx, now, guard, or_raise, ◌>>=◌, ◌>>◌,
}
use cyptocurrency_exchange_b.Store.Accounts.{update_balance, unlock_funds}
use cyptocurrency_exchange_b.Store.Orders.{
  get_order, get_order_for_update, update_order, find_order,
}
use cyptocurrency_exchange_b.Store.Trades.{create_trade, trade_exists_by_id}
use cyptocurrency_exchange_b.Store.Locks.{validate_fencing_token_tx}
use cyptocurrency_exchange_b.OrderService.Symbols.{split_symbol}
use cyptocurrency_exchange_b.OrderService.Updates.{
  AccountUpdate, account_update, calculate_trade_settlement, aggregate_and_sort,
}

module _ ⦃lib : DecimalLib⦄ where
  -- The keys of a set of order IDs, sorted.
  abbrev pub insert_id : Uuid → List Uuid → List Uuid
  insert_id id [] = id ∷ []
  insert_id id (i ∷ ids) =
      let rest = insert_id id ids in
      if id == i then i ∷ ids else if ltb id i then id ∷ i ∷ ids else i ∷ rest

  abbrev pub order_ids : Uuid → List Trade → List Uuid
  order_ids taker_id [] = taker_id ∷ []
  order_ids taker_id (t ∷ trades) = insert_id t.maker_order_id (order_ids taker_id trades)

  -- A write to a locked order through its pointer.
  abbrev pub put : Order → List Order → List Order
  put order [] = []
  put order (o ∷ orders) =
      let rest = put order orders in if o.id == order.id then order ∷ rest else o ∷ rest

  -- `ErrNoRows` on a locked order makes the event stale.
  abbrev pub stale_if_missing : Result Order × World → Result Order × World
  stale_if_missing (ok o, w) = (ok o, w)
  stale_if_missing (err e, w) = elim e [
    | no_rows ↦ (err stale_settlement_event, w)
    | other ↦ (err other, w)
  ]

  abbrev pub lock_order : Uuid → Action Order
  lock_order id w = stale_if_missing (get_order_for_update id w)

  unfoldable pub lock_orders : List Uuid → Action (List Order)
  lock_orders [] = pure []
  lock_orders (id ∷ ids) = do o ← lock_order id; os ← lock_orders ids; pure (o ∷ os)

  unfoldable pub check_fencing : ℕ → Action (Unit {0})
  check_fencing token =
      if ltb 0 token
      then (do
        valid ← validate_fencing_token_tx "matching-engine:global" token
        guard valid stale_settlement_event)
      else pure tt

  -- The check for a repeated delivery, inside the transaction.
  unfoldable pub check_replay : List Trade → Action (Unit {0})
  check_replay [] = pure tt
  check_replay (t ∷ trades) = do
    exists ← trade_exists_by_id t.id
    guard (not exists) idempotency_skip

  abbrev pub maker_status : Order → Decimal → OrderStatus
  maker_status maker filled =
      if equal filled maker.quantity
      then status_filled
      else if greater_than filled zero_dec
      then status_partially_filled
      else maker.status

  abbrev pub fill_maker : Trade → ℕ → Order → Order
  fill_maker trade at maker =
      let filled = add maker.filled_quantity trade.quantity in
      record maker { filled_quantity = filled; status = maker_status maker filled; updated_at = at }

  abbrev pub fill_taker : Trade → Order → Order
  fill_taker trade taker = record taker {
    filled_quantity = add taker.filled_quantity trade.quantity;
  }

  -- The loop over the trades, on the locked orders and the updates collected so far.
  unfoldable pub settle_trades :
      Uuid → List Trade → List Order → List AccountUpdate → Action (List Order × List AccountUpdate)
  settle_trades taker_id [] orders updates = pure (orders, updates)
  settle_trades taker_id (trade ∷ trades) orders updates = do
    maker ← or_raise (find_order trade.maker_order_id orders) missing_order
    at ← now
    let filled = fill_maker trade at maker
    taker ← or_raise (find_order taker_id (put filled orders)) missing_order
    ups ← or_raise (calculate_trade_settlement trade taker filled) invalid_symbol
    settle_trades taker_id trades (put (fill_taker trade taker) (put filled orders))
        (updates ++ ups)

  abbrev pub total_trade_value : Decimal → List Trade → Decimal
  total_trade_value total [] = total
  total_trade_value total (t ∷ trades) =
      total_trade_value (add total (mul t.price t.quantity)) trades

  -- The taker's final status and what is refunded to it.
  unfoldable pub close_taker : SettlementRequestedEvent → Order → OrderStatus × Decimal
  close_taker event taker =
      if taker.type == type_market
      then (
        (if is_zero taker.filled_quantity then status_canceled else status_filled),
        (if taker.side == side_buy
            then sub event.amount_locked (total_trade_value zero_dec event.trades)
            else sub taker.quantity taker.filled_quantity),
      )
      else if equal taker.filled_quantity taker.quantity
      then (status_filled, zero_dec)
      else if is_zero event.remaining_qty
      then (
        status_canceled,
        (let canceled_qty = sub taker.quantity taker.filled_quantity in
            if taker.side == side_buy then mul canceled_qty taker.price else canceled_qty),
      )
      else if greater_than taker.filled_quantity zero_dec
      then (status_partially_filled, zero_dec)
      else (taker.status, zero_dec)

  abbrev pub refund : SettlementRequestedEvent → Order → Decimal → List AccountUpdate
  refund event taker amount =
      if greater_than amount zero_dec
      then account_update taker.user_id event.locked_currency zero_dec (round8 amount) ∷ []
      else []

  unfoldable pub save_orders : List Uuid → List Order → Action (List Order)
  save_orders [] orders = pure []
  save_orders (id ∷ ids) orders = do
    o ← or_raise (find_order id orders) missing_order
    at ← now
    let o' = record o { updated_at = at }
    update_order o'
    rest ← save_orders ids orders
    pure (o' ∷ rest)

  unfoldable pub create_trades : List Trade → Action (Unit {0})
  create_trades [] = pure tt
  create_trades (t ∷ trades) = do create_trade t; create_trades trades

  abbrev pub apply_unlock : AccountUpdate → Action (Unit {0})
  apply_unlock up =
      if greater_than up.unlock zero_dec
      then unlock_funds up.user_id up.currency up.unlock
      else pure tt

  abbrev pub apply_amount : AccountUpdate → Action (Unit {0})
  apply_amount up =
      if not (is_zero up.amount) then update_balance up.user_id up.currency up.amount else pure tt

  unfoldable pub apply_updates : List AccountUpdate → Action (Unit {0})
  apply_updates [] = pure tt
  apply_updates (up ∷ ups) = do apply_unlock up; apply_amount up; apply_updates ups

  abbrev pub closed : SettlementRequestedEvent → Order → Order
  closed event taker = record taker { status = (close_taker event taker).0 }

  -- What the transaction reads and works out before it writes.
  abbrev pub finish :
      SettlementRequestedEvent
      → List Order × List AccountUpdate
      → Action (List Order × List AccountUpdate)
  finish event (orders, updates) = do
    taker ← or_raise (find_order event.taker_order_id orders) missing_order
    pure (
      put (closed event taker) orders,
      updates ++ refund event (closed event taker) (close_taker event taker).1,
    )

  unfoldable pub prepare_fenced :
      SettlementRequestedEvent → Action (List Order × List AccountUpdate)
  unfolding lock_orders check_replay settle_trades close_taker
  prepare_fenced event = do
    locked ← lock_orders (order_ids event.taker_order_id event.trades)
    taker ← or_raise (find_order event.taker_order_id locked) missing_order
    guard (taker.status == status_new) idempotency_skip
    check_replay event.trades
    settled ← settle_trades event.taker_order_id event.trades locked []
    finish event settled

  unfoldable pub prepare : SettlementRequestedEvent → Action (List Order × List AccountUpdate)
  unfolding check_fencing prepare_fenced
  prepare event = check_fencing event.fencing_token >> prepare_fenced event

  unfoldable pub write_settlement :
      SettlementRequestedEvent → List Order × List AccountUpdate → Action (List Order)
  unfolding save_orders create_trades apply_updates aggregate_and_sort
  write_settlement event (orders, updates) = do
    saved ← save_orders (order_ids event.taker_order_id event.trades) orders
    create_trades event.trades
    apply_updates (aggregate_and_sort updates)
    pure saved

  -- The body of the settlement transaction, and the orders that it saved.
  unfoldable pub settlement_body : SettlementRequestedEvent → Action (List Order)
  unfolding prepare write_settlement
  settlement_body event = prepare event >>= write_settlement event

  -- A replay and a stale event end without an error, so that the offset is committed. The result is
  -- the orders whose updates are then published, which nothing in the database depends on.
  abbrev pub absorb : Result (List Order) × World → Result (List Order) × World
  absorb (ok saved, w) = (ok saved, w)
  absorb (err e, w) = elim e [
    | idempotency_skip ↦ (ok [], w)
    | stale_settlement_event ↦ (ok [], w)
    | other ↦ (err other, w)
  ]

  unfoldable pub execute_settlement_tx : SettlementRequestedEvent → Action (List Order)
  unfolding settlement_body
  execute_settlement_tx event w = absorb (exec_tx (settlement_body event) w)
