-- ===== src/OrderService/Handlers/Delivery.antt =====
-- Deliveries of settlement events: what is handled twice, what comes from a superseded leader, and
-- what the accounts hold afterwards.
use cyptocurrency_exchange_b.Prelude.{
  suc, String, ◌≡◌, refl, inl, inr, ap, sym, subst, Bool, true, false, not, List, [], ◌∷◌,
  Bool-cases, ◌==◌,
}
use cyptocurrency_exchange_b.Prelude.Int.{pos}
use cyptocurrency_exchange_b.Decimal.{DecimalLib}
use cyptocurrency_exchange_b.Engine.Types.{Uuid, Trade}
use cyptocurrency_exchange_b.Domain.Models.{Order, status_new}
use cyptocurrency_exchange_b.Domain.Events.{SettlementRequestedEvent}
use cyptocurrency_exchange_b.Store.World.{db_error, no_rows, Result, ok, err, World, exec_tx}
use cyptocurrency_exchange_b.Store.World.After.{After, After-exec_tx, bind-reads, chain}
use cyptocurrency_exchange_b.Store.Accounts.Balances.{Updated}
use cyptocurrency_exchange_b.Store.Orders.{get_order}
use cyptocurrency_exchange_b.Store.Orders.Found.{get_order-db}
use cyptocurrency_exchange_b.Store.Trades.{has_trade, trade_exists_by_id}
use cyptocurrency_exchange_b.OrderService.Settlement.{settlement_body}
use cyptocurrency_exchange_b.Store.Accounts.Changes.{Updated-refl}
use cyptocurrency_exchange_b.OrderService.Settlement.Conserves.{
  IsStocked, execute_settlement_tx-Updated,
}
use cyptocurrency_exchange_b.OrderService.Settlement.Stored.{settlement_body-stores}
use cyptocurrency_exchange_b.OrderService.Handlers.{
  settle_once, settle_new, settle_by, handle_settlement_requested,
}

module _ ⦃lib : DecimalLib⦄ where
  module _ (cs : List String) (c : String) (event : SettlementRequestedEvent) where
    settle_once-Updated :
        (exists : Bool) (w : World)
        → IsStocked cs w.db
        → Updated c (pos 0) w.db.accounts (settle_once event exists w).1.db.accounts
    settle_once-Updated true w stocked = Updated-refl c w.db.accounts
    settle_once-Updated false w stocked = execute_settlement_tx-Updated cs c event w stocked

    settle_new-Updated :
        (r : Result Order × World)
        → IsStocked cs r.1.db
        → Updated c (pos 0) r.1.db.accounts (settle_new event r).1.db.accounts
    settle_new-Updated (ok taker, w) stocked =
        settle_once-Updated (not (taker.status == status_new)) w stocked
    settle_new-Updated (err no_rows, w) stocked = Updated-refl c w.db.accounts
    settle_new-Updated (err e, w) stocked = Updated-refl c w.db.accounts

  exists-db : (id : Uuid) (w : World) → (trade_exists_by_id id w).1.db ≡ w.db
  unfolding trade_exists_by_id
  exists-db id w = elim (Bool-cases (w.env.fails w.calls)) [
    | inl down ↦ rw down refl
    | inr up ↦ rw up refl
  ]

  -- Handling a settlement event, whatever its content, whether it was handled before, and whatever
  -- fails on the way, leaves each currency with what all accounts held of it together, available and
  -- locked, adds and removes no account, and leaves no balance and no locked amount below zero if
  -- none was, where each user has at most one account in a currency and the users of the stored
  -- orders have accounts in the currencies of the orders.
  pub handle_settlement_requested-Updated :
      (cs : List String) (c : String) (event : SettlementRequestedEvent) (w : World)
      → IsStocked cs w.db
      → Updated c (pos 0) w.db.accounts (handle_settlement_requested event w).1.db.accounts
  unfolding handle_settlement_requested
  handle_settlement_requested-Updated cs c event w stocked = by_trades event.trades
    where
      settled :
          (r : Result Order × World)
          → r.1.db ≡ w.db
          → Updated c (pos 0) w.db.accounts (settle_new event r).1.db.accounts
      settled r same =
          subst (λ db. Updated c (pos 0) db.accounts (settle_new event r).1.db.accounts) same
            (settle_new-Updated cs c event r (subst (IsStocked cs) (sym same) stocked))

      by_trades :
          (ts : List Trade) → Updated c (pos 0) w.db.accounts (settle_by event ts w).1.db.accounts
      by_trades [] =
          settled (get_order event.taker_order_id w) (get_order-db event.taker_order_id w)
      by_trades (t ∷ ts) =
          bind-reads (λ before after. Updated c (pos 0) before.accounts after.accounts)
            (trade_exists_by_id t.id) (settle_once event) w (exists-db t.id w)
            (Updated-refl c w.db.accounts)
            (λ exists w' same.
              settle_once-Updated cs c event exists w' (subst (IsStocked cs) (sym same) stocked))

  settle_twice :
      (event : SettlementRequestedEvent) (t : Trade) (ts : List Trade) (w : World)
      → has_trade t.id w.db.trades ≡ true
      → (settle_by event (t ∷ ts) w).1.db ≡ w.db
  unfolding trade_exists_by_id
  settle_twice event t ts w stored = elim (Bool-cases (w.env.fails w.calls)) [
    | inl down ↦ ap (λ r. (chain r (settle_once event)).1.db) (failed down)
    | inr up ↦ ap (λ r. (chain r (settle_once event)).1.db) (found up)
  ]
    where
      failed :
          w.env.fails w.calls ≡ true
          → trade_exists_by_id t.id w ≡ (err db_error, record w { calls = suc w.calls })
      failed down = rw down refl

      found :
          w.env.fails w.calls ≡ false
          → trade_exists_by_id t.id w ≡ (ok true, record w { calls = suc w.calls })
      found up = rw (up, stored) refl

  -- If the settlement transaction of an event that has trades commits, a later delivery of the event
  -- to a database that still has every trade that was stored after the commit, and maybe more, leaves
  -- the database as it is, whatever else fails.
  pub handle_settlement_requested-replay :
      (event : SettlementRequestedEvent) (t : Trade) (ts : List Trade) (saved : List Order)
      (w w1 w2 : World)
      → event.trades ≡ t ∷ ts
      → exec_tx (settlement_body event) w ≡ (ok saved, w1)
      → ((id : Uuid) → has_trade id w1.db.trades ≡ true → has_trade id w2.db.trades ≡ true)
      → (handle_settlement_requested event w2).1.db ≡ w2.db
  unfolding handle_settlement_requested
  handle_settlement_requested-replay event t ts saved w w1 w2 first committed kept =
      subst (λ trades. (settle_by event trades w2).1.db ≡ w2.db) (sym first)
        (settle_twice event t ts w2 (kept t.id stored))
    where
      stored : has_trade t.id w1.db.trades ≡ true
      stored =
          subst (λ r. After r (λ _ w'. has_trade t.id w'.db.trades ≡ true)) committed
            (After-exec_tx (settlement_body event) w (λ _ db. has_trade t.id db.trades ≡ true)
              (settlement_body-stores event t ts (record w { calls = suc w.calls }) first))
