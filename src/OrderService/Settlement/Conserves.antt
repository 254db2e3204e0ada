-- ===== src/OrderService/Settlement/Conserves.antt =====
-- The settlement transaction as a whole: no currency gains or loses anything.
use cyptocurrency_exchange_b.Prelude.{suc, String, ◌≡◌, sym, subst, ◌∙◌, List, map, All}
use cyptocurrency_exchange_b.Prelude.Int.{pos}
use cyptocurrency_exchange_b.Decimal.{DecimalLib}
use cyptocurrency_exchange_b.Domain.Models.{Order}
use cyptocurrency_exchange_b.Domain.Events.{SettlementRequestedEvent}
use cyptocurrency_exchange_b.Store.World.{
  idempotency_skip, stale_settlement_event, Result, ok, err, Db, World, pure, exec_tx, ◌>>=◌, ◌>>◌,
}
use cyptocurrency_exchange_b.Store.World.After.{
  After, After-bind, After-exec_tx, RolledBack, exec_tx-RolledBack,
}
use cyptocurrency_exchange_b.Store.Accounts.Balances.{key, Updated, IsUnique}
use cyptocurrency_exchange_b.OrderService.Settlement.{
  apply_updates, save_orders, create_trades, prepare, order_ids, settlement_body, write_settlement,
  absorb, execute_settlement_tx,
}
use cyptocurrency_exchange_b.OrderService.Updates.{AccountUpdate, aggregate_and_sort}
use cyptocurrency_exchange_b.OrderService.Settlement.Net.{net-aggregate_and_sort}
use cyptocurrency_exchange_b.OrderService.Settlement.Backed.{IsBacked, aggregate_and_sort-IsBacked}
use cyptocurrency_exchange_b.OrderService.Settlement.Reads.{IsServed, IsBalanced}
use cyptocurrency_exchange_b.OrderService.Settlement.Prepare.{prepare-Reads}
use cyptocurrency_exchange_b.Store.Accounts.Changes.{Updated-refl}
use cyptocurrency_exchange_b.OrderService.Settlement.Writes.{
  apply_updates-Gains, save_orders-Leaves, create_trades-Leaves,
}

module _ ⦃lib : DecimalLib⦄ (cs : List String) where
  -- Each user has one account per currency, and each order's user one in every currency of `cs`,
  -- where the order's symbol has both its currencies.
  abbrev pub IsStocked : Db → Type 0
  IsStocked db = IsUnique (map key db.accounts) × All (IsServed cs (map key db.accounts)) db.orders

  writes-Updated :
      (c : String) (event : SettlementRequestedEvent) (orders : List Order)
      (updates : List AccountUpdate) (w : World)
      → IsUnique (map key w.db.accounts)
      → IsBalanced cs (map key w.db.accounts) updates
      → After
          ((save_orders (order_ids event.taker_order_id event.trades) orders >>= λ saved.
              create_trades event.trades
              >> (apply_updates (aggregate_and_sort updates) >> pure saved))
            w)
          (λ _ w'. Updated c (pos 0) w.db.accounts w'.db.accounts)
  writes-Updated c event orders updates w unique b =
      After-bind (save_orders (order_ids event.taker_order_id event.trades) orders)
        (λ saved.
          create_trades event.trades >> (apply_updates (aggregate_and_sort updates) >> pure saved))
        w _ _ (save_orders-Leaves (order_ids event.taker_order_id event.trades) orders w)
        (λ saved w1 same.
          After-bind (create_trades event.trades)
            (λ _. apply_updates (aggregate_and_sort updates) >> pure saved) w1 _ _
            (create_trades-Leaves event.trades w1) (λ _ w2 same'. applied saved w2 (same' ∙ same)))
    where
      applied :
          (saved : List Order) (w2 : World)
          → w2.db.accounts ≡ w.db.accounts
          → After
              ((apply_updates (aggregate_and_sort updates) >> pure saved) w2)
              (λ _ w'. Updated c (pos 0) w.db.accounts w'.db.accounts)
      applied saved w2 same =
          After-bind (apply_updates (aggregate_and_sort updates)) (λ _. pure saved) w2 _ _
            (apply_updates-Gains c (aggregate_and_sort updates) w2
              (subst (λ rows. IsUnique (map key rows)) (sym same) unique)
              (subst (λ rows. All (IsBacked (map key rows)) (aggregate_and_sort updates)) (sym same)
                (aggregate_and_sort-IsBacked (map key w.db.accounts) updates b.0)))
            (λ _ w3 u.
              subst (λ rows. Updated c (pos 0) rows w3.db.accounts) same
                (subst (λ d. Updated c d w2.db.accounts w3.db.accounts)
                  (net-aggregate_and_sort c updates ∙ b.1 c) u))

  body-Updated :
      (c : String) (event : SettlementRequestedEvent) (w : World)
      → IsStocked w.db
      → After (settlement_body event w) (λ _ w'. Updated c (pos 0) w.db.accounts w'.db.accounts)
  unfolding settlement_body write_settlement
  body-Updated c event w (unique, served) =
      After-bind (prepare event)
        (λ prepared.
          save_orders (order_ids event.taker_order_id event.trades) prepared.0 >>= λ saved.
          create_trades event.trades
          >> (apply_updates (aggregate_and_sort prepared.1) >> pure saved))
        w _ _ (prepare-Reads cs (map key w.db.accounts) event w served)
        (λ prepared w1 p.
          subst
            (λ db.
              After
                ((save_orders (order_ids event.taker_order_id event.trades) prepared.0 >>= λ saved.
                    create_trades event.trades
                    >> (apply_updates (aggregate_and_sort prepared.1) >> pure saved))
                  w1)
                (λ _ w'. Updated c (pos 0) db.accounts w'.db.accounts))
            p.1
            (writes-Updated c event prepared.0 prepared.1 w1
              (subst (λ db. IsUnique (map key db.accounts)) (sym p.1) unique)
              (subst (λ db. IsBalanced cs (map key db.accounts) prepared.1) (sym p.1) p.0.1)))

  as_before :
      (c : String) (before : Db) (w : World)
      → w.db ≡ before
      → Updated c (pos 0) before.accounts w.db.accounts
  as_before c before w back =
      subst (λ db. Updated c (pos 0) before.accounts db.accounts) (sym back)
        (Updated-refl c before.accounts)

  absorb-Updated :
      (c : String) (before : Db) (r : Result (List Order) × World)
      → RolledBack before r
      → After r (λ _ w. Updated c (pos 0) before.accounts w.db.accounts)
      → Updated c (pos 0) before.accounts (absorb r).1.db.accounts
  absorb-Updated c before (ok saved, w) back done = done
  absorb-Updated c before (err idempotency_skip, w) back done = as_before c before w back
  absorb-Updated c before (err stale_settlement_event, w) back done = as_before c before w back
  absorb-Updated c before (err e, w) back done = as_before c before w back

  -- Settling an event, whatever its content and whatever fails on the way, leaves each currency with
  -- what all accounts held of it together, available and locked, adds and removes no account, and
  -- leaves no balance and no locked amount below zero if none was, where each user has at most one
  -- account in a currency and the users of the stored orders have accounts in their currencies.
  pub execute_settlement_tx-Updated :
      (c : String) (event : SettlementRequestedEvent) (w : World)
      → IsStocked w.db
      → Updated c (pos 0) w.db.accounts (execute_settlement_tx event w).1.db.accounts
  unfolding execute_settlement_tx
  execute_settlement_tx-Updated c event w stocked =
      absorb-Updated c w.db (exec_tx (settlement_body event) w)
        (exec_tx-RolledBack (settlement_body event) w)
        (After-exec_tx (settlement_body event) w
          (λ _ db. Updated c (pos 0) w.db.accounts db.accounts)
          (body-Updated c event (record w { calls = suc w.calls }) stocked))
