-- ===== src/OrderService/Placing/Cancellation.antt =====
-- Requests to cancel an order: who may make them, and what they leave.
use cyptocurrency_exchange_b.Prelude.{
  suc, ◌≡◌, inl, inr, ap, sym, subst, ◌∙◌, true, false, not, Option, none, some, [], ◌∷◌, ◌++◌,
  Bool-cases, ◌==◌, arith,
}
use cyptocurrency_exchange_b.Decimal.{DecimalLib}
use cyptocurrency_exchange_b.Engine.Types.{Uuid}
use cyptocurrency_exchange_b.Domain.Models.{Order, status_filled, status_canceled}
use cyptocurrency_exchange_b.Domain.Events.{Topic, order_cancel_requested}
use cyptocurrency_exchange_b.Store.World.{
  forbidden, not_cancelable, Result, ok, err, Db, World, Message, Action, exec_tx, guard, ◌>>◌,
}
use cyptocurrency_exchange_b.Store.World.After.{
  After, After-bind, After-weaken, After-exec_tx, RolledBack, exec_tx-RolledBack, chain,
}
use cyptocurrency_exchange_b.Store.Orders.{find_order, get_order, get_order_for_update}
use cyptocurrency_exchange_b.Store.Orders.Found.{
  get_order-found, get_order_for_update-found, get_order-db,
}
use cyptocurrency_exchange_b.Store.Outbox.{insert}
use cyptocurrency_exchange_b.OrderService.Placing.{
  is_closed, cancel_draft, cancel_request_body, cancel_order,
}
use cyptocurrency_exchange_b.OrderService.Placing.Statements.{insert-adds, guarded}

module _ ⦃lib : DecimalLib⦄ where
  -- A cancellation of a stored order that is still open: its message is the one addition.
  pub record Requested (order_id : Uuid) (msg : Message) (before after : Db) : Type 0 where
    pub order : Order
    pub stored : find_order order_id before.orders ≡ some order
    pub not_filled : (order.status == status_filled) ≡ false
    pub not_canceled : (order.status == status_canceled) ≡ false
    -- the request names the order by the ID, with its symbol, side and user
    pub payload :
        msg.payload
        ≡ order_cancel_requested (record {
          symbol = order.symbol;
          order_id = order_id;
          side = order.side;
          user_id = order.user_id;
        })
    pub topic : msg.topic ≡ Topic.orders
    pub only : after ≡ record before { outbox = before.outbox ++ msg ∷ [] }

  abbrev announced : Message → Db → Db
  announced msg db = record db { outbox = db.outbox ++ msg ∷ [] }

  abbrev owner : Option Order → Uuid
  owner none = 0
  owner (some o) = o.user_id

  open_order :
      (o : Order)
      → not (is_closed o) ≡ true
      → ((o.status == status_filled) ≡ false) × ((o.status == status_canceled) ≡ false)
  open_order o h = (ground (arith, h), ground (arith, h))

  cancel_request_body-Requested :
      (id : Uuid) (w : World)
      → After (cancel_request_body id w) (λ msg w'. Requested id msg w.db w'.db)
  unfolding cancel_request_body
  cancel_request_body-Requested id w =
      After-bind (get_order_for_update id)
        (λ o. guard (not (is_closed o)) not_cancelable >> insert (cancel_draft id o)) w _ _
        (get_order_for_update-found id w)
        (λ o w1 f.
          After-bind (guard (not (is_closed o)) not_cancelable) (λ _. insert (cancel_draft id o)) w1
            _ _ (guarded (not (is_closed o)) not_cancelable w1)
            (λ _ w2 g.
              After-weaken (insert (cancel_draft id o) w2) _ _ (insert-adds (cancel_draft id o) w2)
                (λ msg w3 i. record {
                  order = o;
                  stored = f.0;
                  not_filled = (open_order o g.0).0;
                  not_canceled = (open_order o g.0).1;
                  payload = i.1.0;
                  topic = i.1.1;
                  only = i.0 ∙ ap (announced msg) (g.1 ∙ f.1);
                })))

  -- A request that went through for its user, or that changed nothing.
  abbrev pub RequestOutcome : Uuid → Uuid → Db → Result Message × World → Type 0
  RequestOutcome id user_id before (ok msg, w) =
      (r : Requested id msg before w.db) × (r.order.user_id ≡ user_id)
  RequestOutcome id user_id before (err e, w) = w.db ≡ before

  -- Asking for a cancellation either fails, and then the database is as before, or the one change is
  -- a message in the outbox, for the topic of orders, that asks for the cancellation of the stored
  -- order by its ID, symbol, side and user, and that order is the asking user's and neither filled
  -- nor canceled.
  pub cancel_order-RequestOutcome :
      (order_id user_id : Uuid) (w : World)
      → RequestOutcome order_id user_id w.db (cancel_order order_id user_id w)
  unfolding cancel_order
  cancel_order-RequestOutcome order_id user_id w =
      from_order (get_order order_id w) (get_order-found order_id w) (get_order-db order_id w)
    where
      asking : Order → Action Message
      asking o =
          guard (o.user_id == user_id) forbidden
          >> (guard (not (is_closed o)) not_cancelable >> exec_tx (cancel_request_body order_id))

      sent :
          (o : Order) (w' : World)
          → find_order order_id w.db.orders ≡ some o
          → w'.db ≡ w.db
          → o.user_id ≡ user_id
          → (r : Result Message × World) → RolledBack w'.db r
          → After r (λ msg w2. Requested order_id msg w'.db w2.db)
          → RequestOutcome order_id user_id w.db r
      sent o w' f same own (ok msg, w2) back done =
          let done' = subst (λ db. Requested order_id msg db w2.db) same done in
          (done', ap owner (sym done'.stored ∙ f) ∙ own)
      sent o w' f same own (err e, w2) back done = back ∙ same

      from_order :
          (r : Result Order × World)
          → After r (λ o w'. (find_order order_id w.db.orders ≡ some o) × (w'.db ≡ w.db))
          → r.1.db ≡ w.db
          → RequestOutcome order_id user_id w.db (chain r asking)
      from_order (err e, w') f same = same
      from_order (ok o, w') f same = elim (Bool-cases (o.user_id == user_id)) [
        | inl own ↦ elim (Bool-cases (is_closed o)) [
          | inl over ↦ rw (own, over) same
          | inr open_still ↦
              rw (own, open_still)
                (sent o w' f.0 f.1 (ground (arith, own)) (exec_tx (cancel_request_body order_id) w')
                  (exec_tx-RolledBack (cancel_request_body order_id) w')
                  (After-exec_tx (cancel_request_body order_id) w'
                    (λ msg db. Requested order_id msg w'.db db)
                    (cancel_request_body-Requested order_id (record w' { calls = suc w'.calls }))))
        ]
        | inr other ↦ rw other same
      ]
