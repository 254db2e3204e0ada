-- ===== src/OrderService/Handlers/Cancel.antt =====
-- The handler of cancellations: what it leaves of the accounts and the orders.
use cyptocurrency_exchange_b.Prelude.{
  suc, String, ◌≡◌, inl, inr, sym, subst, ◌∙◌, ◌||◌, Option, none, some, List, [], ◌∷◌, All,
  Bool-cases, ◌==◌,
}
use cyptocurrency_exchange_b.Prelude.Int.{pos}
use cyptocurrency_exchange_b.Decimal.{DecimalLib, zero_dec, sub, greater_than}
use cyptocurrency_exchange_b.Domain.Models.{Order, status_filled, status_canceled}
use cyptocurrency_exchange_b.Domain.Events.{OrderCanceledEvent}
use cyptocurrency_exchange_b.Store.World.{
  stale_settlement_event, invalid_symbol, Result, ok, err, World, Action, pure, exec_tx, now,
  or_raise, ◌>>=◌, ◌>>◌,
}
use cyptocurrency_exchange_b.Store.World.After.{
  After, After-bind, After-weaken, After-exec_tx, RolledBack, exec_tx-RolledBack,
}
use cyptocurrency_exchange_b.Store.Accounts.{unlock_funds}
use cyptocurrency_exchange_b.Store.Accounts.Balances.{Updated}
use cyptocurrency_exchange_b.Store.Accounts.Funds.{unlock_funds-Moves}
use cyptocurrency_exchange_b.Store.Orders.{update_order}
use cyptocurrency_exchange_b.OrderService.Settlement.{check_fencing, lock_order}
use cyptocurrency_exchange_b.OrderService.Settlement.Prepare.{check_fencing-Reads}
use cyptocurrency_exchange_b.OrderService.Settlement.Reads.{lock_order-Reads}
use cyptocurrency_exchange_b.Store.Accounts.Changes.{Updated-refl, Updated-still}
use cyptocurrency_exchange_b.OrderService.Settlement.Writes.{update_order-Leaves}
use cyptocurrency_exchange_b.OrderService.Handlers.{
  calculate_unlock_amount, unlock_remaining, cancel_locked, cancel_body, drop_stale,
  handle_order_canceled,
}

module _ ⦃lib : DecimalLib⦄ where
  unlock_remaining-Updated :
      (c : String) (order : Order) (unlocking : String × lib.Carrier) (w : World)
      → After
          (unlock_remaining order unlocking w)
          (λ _ w'. Updated c (pos 0) w.db.accounts w'.db.accounts)
  unlock_remaining-Updated c order (currency, amount) w =
      elim (Bool-cases (greater_than amount zero_dec)) [
        | inl some_left ↦ rw some_left (
            After-weaken (unlock_funds order.user_id currency amount w) _ _
              (unlock_funds-Moves c order.user_id currency amount w) (λ _ w' m. m.updated))
        | inr nothing ↦ rw nothing (Updated-refl c w.db.accounts)
      ]

  closing-Updated :
      (c : String) (order : Order) (w : World)
      → After (update_order order w) (λ _ w'. Updated c (pos 0) w.db.accounts w'.db.accounts)
  closing-Updated c order w =
      After-weaken (update_order order w) _ _ (update_order-Leaves order w) (λ _ w' same.
        subst (λ rows. Updated c (pos 0) w.db.accounts rows) (sym same)
          (Updated-refl c w.db.accounts))

  canceled-Updated :
      (c : String) (order : Order) (w : World)
      → After (cancel_locked order w) (λ _ w'. Updated c (pos 0) w.db.accounts w'.db.accounts)
  canceled-Updated c order w =
      elim (Bool-cases (order.status == status_filled || order.status == status_canceled)) [
        | inl over ↦ rw over (Updated-refl c w.db.accounts)
        | inr open_order ↦
            rw open_order
              (from (calculate_unlock_amount order (sub order.quantity order.filled_quantity)))
      ]
    where
      mark : Action (List Order)
      mark = now >>= λ at.
          update_order (record order { status = status_canceled; updated_at = at })
          >> pure (record order { status = status_canceled; updated_at = at } ∷ [])

      mark-Updated :
          (w : World) → After (mark w) (λ _ w'. Updated c (pos 0) w.db.accounts w'.db.accounts)
      mark-Updated w =
          let o = record order {
            status = status_canceled;
            updated_at = w.env.unix_milli w.calls;
          } in
          After-bind (update_order o) (λ _. pure (o ∷ [])) (record w { calls = suc w.calls }) _ _
            (closing-Updated c o (record w { calls = suc w.calls })) (λ _ w' u. u)

      from :
          (unlocking : Option (String × lib.Carrier))
          → After
              ((or_raise unlocking invalid_symbol >>= λ u. unlock_remaining order u >> mark) w)
              (λ _ w'. Updated c (pos 0) w.db.accounts w'.db.accounts)
      from none = tt
      from (some u) =
          After-bind (unlock_remaining order u) (λ _. mark) w
            (λ _ w'. Updated c (pos 0) w.db.accounts w'.db.accounts)
            (λ _ w'. Updated c (pos 0) w.db.accounts w'.db.accounts)
            (unlock_remaining-Updated c order u w)
            (λ _ w1 m.
              After-weaken (mark w1) _ _ (mark-Updated w1) (λ _ w2 n. Updated-still c _ _ _ m n))

  every : (rows : List Order) → All (λ _. Unit {0}) rows
  every [] = tt
  every (o ∷ rows) = (tt, every rows)

  body-Updated :
      (c : String) (event : OrderCanceledEvent) (w : World)
      → After (cancel_body event w) (λ _ w'. Updated c (pos 0) w.db.accounts w'.db.accounts)
  unfolding cancel_body
  body-Updated c event w =
      After-bind (check_fencing event.fencing_token)
        (λ _. lock_order event.order_id >>= cancel_locked) w _ _
        (check_fencing-Reads event.fencing_token w)
        (λ _ w1 p.
          After-bind (lock_order event.order_id) cancel_locked w1 _ _
            (lock_order-Reads (λ _. Unit {0}) event.order_id w1 (every w1.db.orders))
            (λ order w2 q.
              After-weaken (cancel_locked order w2) _ _ (canceled-Updated c order w2) (λ _ w3 u.
                subst (λ db. Updated c (pos 0) db.accounts w3.db.accounts) (q.1 ∙ p.1) u)))

  -- Handling a cancellation, whatever its content and whatever fails on the way, leaves each currency
  -- with what all accounts held of it together, available and locked, adds and removes no account,
  -- and leaves no balance and no locked amount below zero if none was.
  pub handle_order_canceled-Updated :
      (c : String) (event : OrderCanceledEvent) (w : World)
      → Updated c (pos 0) w.db.accounts (handle_order_canceled event w).1.db.accounts
  unfolding handle_order_canceled
  handle_order_canceled-Updated c event w =
      dropped (exec_tx (cancel_body event) w) (exec_tx-RolledBack (cancel_body event) w) (
        After-exec_tx (cancel_body event) w (λ _ db. Updated c (pos 0) w.db.accounts db.accounts)
          (body-Updated c event (record w { calls = suc w.calls })))
    where
      as_before : (w' : World) → w'.db ≡ w.db → Updated c (pos 0) w.db.accounts w'.db.accounts
      as_before w' back =
          subst (λ db. Updated c (pos 0) w.db.accounts db.accounts) (sym back)
            (Updated-refl c w.db.accounts)

      dropped :
          (r : Result (List Order) × World)
          → RolledBack w.db r
          → After r (λ _ w'. Updated c (pos 0) w.db.accounts w'.db.accounts)
          → Updated c (pos 0) w.db.accounts (drop_stale r).1.db.accounts
      dropped (ok updated, w') back done = done
      dropped (err stale_settlement_event, w') back done = as_before w' back
      dropped (err e, w') back done = as_before w' back
