-- ===== src/OrderService/Handlers.antt =====
-- internal/order/event_subscribers.go: the handlers of settlement and cancellation events. A handler
-- returns the orders whose updates are then published.
pub mod Delivery
pub mod Cancel
use cyptocurrency_exchange_b.Prelude.{
  String, Bool, true, false, not, ◌||◌, Option, none, some, List, [], ◌∷◌, ltb, ◌==◌, if◌then◌else◌,
}
use cyptocurrency_exchange_b.Decimal.{DecimalLib, Decimal, zero_dec, sub, mul, greater_than}
use cyptocurrency_exchange_b.Engine.Types.{Trade, side_buy}
use cyptocurrency_exchange_b.Domain.Models.{Order, status_new, status_filled, status_canceled}
use cyptocurrency_exchange_b.Domain.Events.{SettlementRequestedEvent, OrderCanceledEvent}
use cyptocurrency_exchange_b.Store.World.{
  Error, no_rows, stale_settlement_event, invalid_symbol, Result, ok, err, World, Action, pure,
  exec_tx, now, or_raise, ◌>>=◌, ◌>>◌,
}
use cyptocurrency_exchange_b.Store.Accounts.{unlock_funds}
use cyptocurrency_exchange_b.Store.Orders.{get_order, update_order}
use cyptocurrency_exchange_b.Store.Trades.{trade_exists_by_id}
use cyptocurrency_exchange_b.OrderService.Symbols.{split_symbol}
use cyptocurrency_exchange_b.OrderService.Settlement.{
  check_fencing, lock_order, execute_settlement_tx,
}

module _ ⦃lib : DecimalLib⦄ where
  abbrev settle_once : SettlementRequestedEvent → Bool → Action (List Order)
  settle_once event exists = if exists then pure [] else execute_settlement_tx event

  -- Without trades, the taker's status tells whether the event was handled; a missing order is stale.
  abbrev settle_new : SettlementRequestedEvent → Result Order × World → Result (List Order) × World
  settle_new event (ok taker, w) = settle_once event (not (taker.status == status_new)) w
  settle_new event (err no_rows, w) = (ok [], w)
  settle_new event (err e, w) = (err e, w)

  -- The check for a repeated delivery, on the event's trades.
  abbrev settle_by : SettlementRequestedEvent → List Trade → Action (List Order)
  settle_by event [] w = settle_new event (get_order event.taker_order_id w)
  settle_by event (t ∷ _) w = (trade_exists_by_id t.id >>= settle_once event) w

  unfoldable pub handle_settlement_requested : SettlementRequestedEvent → Action (List Order)
  handle_settlement_requested event = settle_by event event.trades

  -- `none` is the error of `splitSymbol`.
  unfoldable pub calculate_unlock_amount : Order → Decimal → Option (String × Decimal)
  calculate_unlock_amount order remaining_qty = elim (split_symbol order.symbol) [
    | none ↦ none
    | some (base, quote) ↦ some (
        if order.side == side_buy
        then (quote, mul order.price remaining_qty)
        else (base, remaining_qty))
  ]

  abbrev pub unlock_remaining : Order → String × Decimal → Action (Unit {0})
  unlock_remaining order (currency, amount) =
      if greater_than amount zero_dec then unlock_funds order.user_id currency amount else pure tt

  abbrev pub cancel_locked : Order → Action (List Order)
  cancel_locked order =
      if order.status == status_filled || order.status == status_canceled then pure [] else (do
        let remaining_qty = sub order.quantity order.filled_quantity
        unlocking ← or_raise (calculate_unlock_amount order remaining_qty) invalid_symbol
        unlock_remaining order unlocking
        at ← now
        let canceled = record order { status = status_canceled; updated_at = at }
        update_order canceled
        pure (canceled ∷ []))

  pub cancel_body : OrderCanceledEvent → Action (List Order)
  unfolding check_fencing
  cancel_body event = do
    check_fencing event.fencing_token
    order ← lock_order event.order_id
    cancel_locked order

  abbrev pub drop_stale : Result (List Order) × World → Result (List Order) × World
  drop_stale (ok updated, w) = (ok updated, w)
  drop_stale (err stale_settlement_event, w) = (ok [], w)
  drop_stale (err e, w) = (err e, w)

  unfoldable pub handle_order_canceled : OrderCanceledEvent → Action (List Order)
  unfolding cancel_body
  handle_order_canceled event w = drop_stale (exec_tx (cancel_body event) w)
