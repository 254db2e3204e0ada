-- ===== src/OrderService/Placing/Batch.antt =====
-- What placing a batch of orders leaves: everything that belongs to the orders, or nothing at all.
pub mod Rows
pub mod Prepared
pub mod Totals
use mathlib.Core.List.{append-nil}
use cyptocurrency_exchange_b.Prelude.{
  ℕ, suc, String, ◌≡◌, refl, inl, inr, ap, sym, subst, ◌∙◌, Bool, true, false, ◌||◌, not, Option,
  none, some, List, [], ◌∷◌, ◌++◌, map, Bool-cases,
}
use cyptocurrency_exchange_b.Prelude.Int.{pos}
use cyptocurrency_exchange_b.Decimal.{DecimalLib, Decimal, zero_dec, less_than_or_equal}
use cyptocurrency_exchange_b.Engine.Types.{Uuid, OrderBookSnapshot}
use cyptocurrency_exchange_b.Domain.Models.{Order}
use cyptocurrency_exchange_b.Domain.Events.{Topic, Event, orders, order_placed}
use cyptocurrency_exchange_b.Store.World.{
  Error, invalid_quantity, Result, ok, err, Db, World, Message, Action, pure, exec_tx, guard, ◌>>=◌,
  ◌>>◌,
}
use cyptocurrency_exchange_b.Store.World.After.{
  After, After-all, After-bind, After-weaken, After-exec_tx, RolledBack, exec_tx-RolledBack, chain,
  bind-reads,
}
use cyptocurrency_exchange_b.Store.Accounts.{batch_lock_funds}
use cyptocurrency_exchange_b.Store.Accounts.Balances.{Updated}
use cyptocurrency_exchange_b.Store.Accounts.Changes.{Updated-refl}
use cyptocurrency_exchange_b.Store.Accounts.Funds.{Moves}
use cyptocurrency_exchange_b.Store.Accounts.Locking.{batch_lock_funds-Moves}
use cyptocurrency_exchange_b.Store.Orders.{batch_create_orders}
use cyptocurrency_exchange_b.Store.Outbox.{batch_insert, uuid_or_zero}
use cyptocurrency_exchange_b.OrderService.Placing.{
  calculate_lock_amount, normalized, as_new, placed_event, placed_draft, lifted, bad_price,
  add_lock, prepare_batch, batch_body, batch_place_orders,
}
use cyptocurrency_exchange_b.OrderService.Placing.Statements.{guarded}
use cyptocurrency_exchange_b.OrderService.Placing.Batch.Rows.{
  says, batch_create_orders-adds, batch_insert-adds,
}
use cyptocurrency_exchange_b.OrderService.Placing.Batch.Prepared.{
  Locks, AllMade, IsPrepared, prepare_batch-IsPrepared, prepare_batch-reads,
}

module _ ⦃lib : DecimalLib⦄ where
  read-RolledBack :
      {A : Type 0} (r : Result A × World) (before : Db) → r.1.db ≡ before → RolledBack before r
  read-RolledBack (ok a, w) before same = tt
  read-RolledBack (err e, w) before same = same

  -- The change that a batch makes: its orders and their announcements, and its funds, which are
  -- locked.
  pub record BatchPlaced (os : List Order) (ms : List Message) (before after : Db) : Type 0 where
    pub stored : after.orders ≡ before.orders ++ os
    pub announced : after.outbox ≡ before.outbox ++ ms
    pub held : (c : String) → Updated c (pos 0) before.accounts after.accounts
    pub trades : after.trades ≡ before.trades

  batch_body-BatchPlaced :
      (locks : Locks) (os : List Order) (drafts : List Message) (w : World)
      → After
          (batch_body locks os drafts w)
          (λ ms w'. BatchPlaced os ms w.db w'.db × (map says ms ≡ map says drafts))
  unfolding batch_body
  batch_body-BatchPlaced locks os drafts w =
      After-bind (batch_lock_funds locks) (λ _. batch_create_orders os >> batch_insert drafts) w
        (λ _ w'. (c : String) → Moves c (pos 0) w.db w'.db) _
        (After-all (batch_lock_funds locks w) (λ c _ w'. Moves c (pos 0) w.db w'.db)
          (λ c. batch_lock_funds-Moves c locks w))
        (λ _ w1 l.
          After-bind (batch_create_orders os) (λ _. batch_insert drafts) w1
            (λ _ w'. w'.db ≡ record w1.db { orders = w1.db.orders ++ os }) _
            (batch_create_orders-adds os w1)
            (λ _ w2 a.
              After-weaken (batch_insert drafts w2) _ _ (batch_insert-adds drafts w2)
                (λ ms w3 i. (joined w1 w2 w3 ms l a i.0, i.1))))
    where
      joined :
          (w1 w2 w3 : World) (ms : List Message)
          → ((c : String) → Moves c (pos 0) w.db w1.db)
          → w2.db ≡ record w1.db { orders = w1.db.orders ++ os }
          → w3.db ≡ record w2.db { outbox = w2.db.outbox ++ ms }
          → BatchPlaced os ms w.db w3.db
      joined w1 w2 w3 ms l a i =
          let others = (l "").others in
          record {
            stored =
                ap (λ db. db.orders) i
                ∙ (ap (λ db. db.orders) a ∙ ap (λ db. db.orders ++ os) others);
            announced =
                ap (λ db. db.outbox) i
                ∙ ap (λ rows. rows ++ ms) (ap (λ db. db.outbox) a ∙ ap (λ db. db.outbox) others);
            held = λ c.
                subst (λ rows. Updated c (pos 0) w.db.accounts rows)
                  (sym (ap (λ db. db.accounts) i ∙ ap (λ db. db.accounts) a)) (l c).updated;
            trades =
                ap (λ db. db.trades) i ∙ (ap (λ db. db.trades) a ∙ ap (λ db. db.trades) others);
          }

  -- A batch that went through, or that changed nothing.
  abbrev pub BatchOutcome :
      (String → Option OrderBookSnapshot)
      → ℕ
      → List Order
      → Db
      → Result (List Order × List Message) × World
      → Type 0
  BatchOutcome cached at requests before (ok (os, ms), w) =
      AllMade cached at requests os (map says ms) × BatchPlaced os ms before w.db
  BatchOutcome cached at requests before (err e, w) = w.db ≡ before

  transaction-BatchOutcome :
      (cached : String → Option OrderBookSnapshot) (at : ℕ) (requests os : List Order)
      (drafts : List Message) (r : Result (List Message) × World) (before : Db)
      → RolledBack before r
      → After r (λ ms w'. BatchPlaced os ms before w'.db × (map says ms ≡ map says drafts))
      → AllMade cached at requests os (map says drafts)
      → BatchOutcome cached at requests before (chain r (λ ms. pure (os, ms)))
  transaction-BatchOutcome cached at requests os drafts (ok ms, w) before back (placed, same) made =
      (subst (AllMade cached at requests os) (sym same) made, placed)
  transaction-BatchOutcome cached at requests os drafts (err e, w) before back placed made = back

  prepared-BatchOutcome :
      (cached : String → Option OrderBookSnapshot) (at : ℕ) (requests : List Order)
      (r : Result (Locks × (List Order × List Message)) × World) (w : World)
      → After r (IsPrepared cached at requests w)
      → RolledBack w.db r
      → BatchOutcome cached at requests w.db
          (chain r (λ x. exec_tx (batch_body x.0 x.1.0 x.1.1) >>= λ ms. pure (x.1.0, ms)))
  prepared-BatchOutcome cached at requests (err e, w1) w h same = same
  prepared-BatchOutcome cached at requests (ok (locks, (os, drafts)), w1) w (made, same) _ =
      let body = batch_body locks os drafts in
      subst
        (λ db. BatchOutcome cached at requests db (chain (exec_tx body w1) (λ ms. pure (os, ms))))
        same
        (transaction-BatchOutcome cached at requests os drafts (exec_tx body w1) w1.db
          (exec_tx-RolledBack body w1)
          (After-exec_tx body w1
            (λ ms db. BatchPlaced os ms w1.db db × (map says ms ≡ map says drafts))
            (batch_body-BatchPlaced locks os drafts (record w1 { calls = suc w1.calls })))
          made)

  -- Placing a batch either fails, and then the database is as before, or there is one order and one
  -- message for each request, in their order: each request had a quantity and, for a limit order, a
  -- price above zero, its order is made of it as it was rounded and put in upper case, and its message,
  -- addressed to the topic of orders, announces this order with the amount and currency that the lock
  -- was calculated as. These orders are the rows that were added to the orders and these messages
  -- those that were added to the outbox, and each currency has what all accounts held of it before,
  -- available and locked.
  pub batch_place_orders-Outcome :
      (cached : String → Option OrderBookSnapshot) (requests : List Order) (w : World)
      → BatchOutcome cached
          (w.env.unix_milli w.calls)
          requests
          w.db
          (batch_place_orders cached requests w)
  unfolding batch_place_orders
  batch_place_orders-Outcome cached [] w = (
    tt,
    record {
      stored = sym (append-nil w.db.orders);
      announced = sym (append-nil w.db.outbox);
      held = λ c. Updated-refl c w.db.accounts;
      trades = refl;
    },
  )
  batch_place_orders-Outcome cached (request ∷ requests) w =
      let w1 = record w { calls = suc w.calls } in
      let at = w.env.unix_milli w.calls in
      prepared-BatchOutcome cached at (request ∷ requests)
        (prepare_batch cached at [] (request ∷ requests) w1) w1
        (prepare_batch-IsPrepared cached at [] (request ∷ requests) w1)
        (read-RolledBack (prepare_batch cached at [] (request ∷ requests) w1) w.db
          (prepare_batch-reads cached at [] (request ∷ requests) w1))
