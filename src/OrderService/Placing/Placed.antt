-- ===== src/OrderService/Placing/Placed.antt =====
-- What placing an order leaves: everything that belongs to a new order, or nothing at all.
use cyptocurrency_exchange_b.Prelude.{
  ℕ, suc, String, ◌≡◌, refl, inl, inr, ap, sym, subst, ◌∙◌, true, Option, none, some, [], ◌∷◌, ◌++◌,
  Bool-cases,
}
use cyptocurrency_exchange_b.Prelude.Int.{pos}
use cyptocurrency_exchange_b.Decimal.{DecimalLib, Decimal, zero_dec, less_than_or_equal}
use cyptocurrency_exchange_b.Engine.Types.{Uuid, OrderBookSnapshot}
use cyptocurrency_exchange_b.Domain.Models.{Order, is_symbol_allowed}
use cyptocurrency_exchange_b.Domain.Events.{Event, order_placed, orders}
use cyptocurrency_exchange_b.Store.World.{
  symbol_not_allowed, no_uuid, Result, ok, err, Db, World, Message, pure, exec_tx, guard, now,
  or_raise, ◌>>=◌, ◌>>◌,
}
use cyptocurrency_exchange_b.Store.World.After.{
  After, After-all, After-both, After-bind, After-weaken, After-exec_tx, RolledBack,
  exec_tx-RolledBack,
}
use cyptocurrency_exchange_b.Store.Accounts.{lock_funds}
use cyptocurrency_exchange_b.Store.Accounts.Balances.{Updated}
use cyptocurrency_exchange_b.Store.Accounts.Funds.{Moves, lock_funds-Moves}
use cyptocurrency_exchange_b.Store.Accounts.Reserve.{HasReserved, lock_funds-HasReserved}
use cyptocurrency_exchange_b.Store.Orders.{create_order}
use cyptocurrency_exchange_b.Store.Outbox.{insert}
use cyptocurrency_exchange_b.OrderService.Placing.Statements.{
  create_order-adds, insert-adds, guarded,
}
use cyptocurrency_exchange_b.OrderService.Placing.{
  calculate_lock_amount, normalized, as_new, placed_event, placed_draft, lifted, bad_price,
  place_body, place_valid, place_order,
}

module _ ⦃lib : DecimalLib⦄ where
  -- What the announcement of an order says, with what is locked for it.
  abbrev pub announcement : Order → String → Decimal → Event
  announcement order currency amount = order_placed (record {
    symbol = order.symbol;
    order_id = order.id;
    user_id = order.user_id;
    side = order.side;
    type = order.type;
    price = order.price;
    quantity = order.quantity;
    created_at = order.created_at;
    amount_locked = amount;
    locked_currency = currency;
  })

  -- The change that a new order makes: the order, its announcement, and its funds, of which the
  -- amount moved from available to locked in an account of the order's user.
  pub record Placed (currency : String) (amount : Decimal) (order : Order) (msg : Message)
      (before after : Db) : Type 0 where
    pub stored : after.orders ≡ before.orders ++ order ∷ []
    pub announced : after.outbox ≡ before.outbox ++ msg ∷ []
    pub payload : msg.payload ≡ announcement order currency amount
    pub topic : msg.topic ≡ orders
    pub allowed : is_symbol_allowed order.symbol ≡ true
    pub held : (c : String) → Updated c (pos 0) before.accounts after.accounts
    pub reserved : HasReserved order.user_id currency amount before.accounts after.accounts
    pub trades : after.trades ≡ before.trades

  all_locked :
      (user_id : Uuid) (currency : String) (amount : Decimal) (w : World)
      → After (lock_funds user_id currency amount w) (λ _ w'.
        ((c : String) → Updated c (pos 0) w.db.accounts w'.db.accounts)
        × (w'.db ≡ record w.db { accounts = w'.db.accounts })
        × HasReserved user_id currency amount w.db.accounts w'.db.accounts)
  all_locked user_id currency amount w =
      After-both (lock_funds user_id currency amount w) _ _ _
        (lock_funds-HasReserved user_id currency amount w)
        (After-all (lock_funds user_id currency amount w) (λ c _ w'. Moves c (pos 0) w.db w'.db)
          (λ c. lock_funds-Moves c user_id currency amount w))
        (λ _ w' taken m. (λ c. (m c).updated, (m currency).others, taken))

  place_body-Placed :
      (order : Order) (currency : String) (amount : Decimal) (w : World)
      → After
          (place_body order currency amount w)
          (λ msg w'. Placed currency amount order msg w.db w'.db)
  unfolding place_body
  place_body-Placed order currency amount w =
      After-bind (lock_funds order.user_id currency amount)
        (λ _.
          create_order order
          >> (guard (is_symbol_allowed order.symbol) symbol_not_allowed
              >> insert (placed_draft order currency amount)))
        w _ _ (all_locked order.user_id currency amount w)
        (λ _ w1 l.
          After-bind (create_order order)
            (λ _.
              guard (is_symbol_allowed order.symbol) symbol_not_allowed
              >> insert (placed_draft order currency amount))
            w1 _ _ (create_order-adds order w1)
            (λ _ w2 a.
              After-bind (guard (is_symbol_allowed order.symbol) symbol_not_allowed)
                (λ _. insert (placed_draft order currency amount)) w2 _ _
                (guarded (is_symbol_allowed order.symbol) symbol_not_allowed w2)
                (λ _ w3 g.
                  After-weaken (insert (placed_draft order currency amount) w3) _ _
                    (insert-adds (placed_draft order currency amount) w3)
                    (λ msg w4 i. joined w1 w2 w3 w4 msg l a g i))))
    where
      joined :
          (w1 w2 w3 w4 : World) (msg : Message)
          → ((c : String) → Updated c (pos 0) w.db.accounts w1.db.accounts)
            × (w1.db ≡ record w.db { accounts = w1.db.accounts })
            × HasReserved order.user_id currency amount w.db.accounts w1.db.accounts
          → w2.db ≡ record w1.db { orders = w1.db.orders ++ order ∷ [] }
          → (is_symbol_allowed order.symbol ≡ true) × (w3.db ≡ w2.db)
          → (w4.db ≡ record w3.db { outbox = w3.db.outbox ++ msg ∷ [] })
            × ((msg.payload ≡ order_placed (placed_event order currency amount))
                × (msg.topic ≡ orders))
          → Placed currency amount order msg w.db w4.db
      joined w1 w2 w3 w4 msg l a g i =
          let to3 : w3.db ≡ record w1.db { orders = w1.db.orders ++ order ∷ [] } = g.1 ∙ a in
          record {
            stored =
                ap (λ db. db.orders) i.0
                ∙ (ap (λ db. db.orders) to3 ∙ ap (λ db. db.orders ++ order ∷ []) l.1);
            announced =
                ap (λ db. db.outbox) i.0
                ∙ ap (λ rows. rows ++ msg ∷ [])
                    (ap (λ db. db.outbox) to3 ∙ ap (λ db. db.outbox) l.1);
            payload = i.1.0;
            topic = i.1.1;
            allowed = g.0;
            held = λ c.
                subst (λ rows. Updated c (pos 0) w.db.accounts rows)
                  (sym (ap (λ db. db.accounts) i.0 ∙ ap (λ db. db.accounts) to3)) (l.0 c);
            reserved =
                subst (HasReserved order.user_id currency amount w.db.accounts)
                  (sym (ap (λ db. db.accounts) i.0 ∙ ap (λ db. db.accounts) to3)) l.2;
            trades =
                ap (λ db. db.trades) i.0 ∙ (ap (λ db. db.trades) to3 ∙ ap (λ db. db.trades) l.1);
          }

  -- A request that went through, or that changed nothing.
  abbrev pub Outcome :
      Order → Result (String × Decimal) → Db → Result (Order × Message) × World → Type 0
  Outcome valid locking before (ok (order, msg), w) =
      (l : String × Decimal) × (at : ℕ) × (locking ≡ ok l)
      × (order ≡ as_new order.id at valid)
      × Placed l.0 l.1 order msg before w.db
  Outcome valid locking before (err e, w) = w.db ≡ before

  place_valid-Outcome :
      (order : Order) (l : String × Decimal) (w : World)
      → Outcome order (ok l) w.db (place_valid order l w)
  place_valid-Outcome order (currency, amount) w = with_id (w.env.new_v7 w.calls)
    where
      sent :
          (id : Uuid) (at : ℕ) (w' : World)
          → (r : Result Message × World) → RolledBack w'.db r
          → After r (λ msg w2. Placed currency amount (as_new id at order) msg w'.db w2.db)
          → Outcome order (ok (currency, amount)) w'.db (
              let (x, w2) = r in
              elim x [ ok msg ↦ (ok (as_new id at order, msg), w2) | err e ↦ (err e, w2) ])
      sent id at w' (ok msg, w2) back done = ((currency, amount), at, refl, refl, done)
      sent id at w' (err e, w2) back done = back

      with_id :
          (x : Option Uuid)
          → Outcome order (ok (currency, amount)) w.db (
              (or_raise x no_uuid >>= λ id. now >>= λ at.
              exec_tx (place_body (as_new id at order) currency amount) >>= λ msg.
              pure (as_new id at order, msg))
                (record w { calls = suc w.calls }))
      with_id none = refl
      with_id (some id) =
          let at = w.env.unix_milli (suc w.calls) in
          let w2 = record w { calls = suc (suc w.calls) } in
          let body = place_body (as_new id at order) currency amount in
          sent id at w2 (exec_tx body w2) (exec_tx-RolledBack body w2) (
            After-exec_tx body w2
              (λ msg db. Placed currency amount (as_new id at order) msg w.db db)
              (place_body-Placed (as_new id at order) currency amount
                (record w2 { calls = suc w2.calls })))

  -- Placing an order either fails, and then the database is as before, or it returns the order, made
  -- of the request as it was rounded and put in upper case, and a message such that the order is the
  -- one row that was added to the orders and the message the one that was added to the outbox,
  -- addressed to the topic of orders and announcing this order with the amount and currency that the
  -- lock was calculated as, which an account of the user in the currency had available and now has
  -- locked; the symbol is an allowed one, and each currency has what all accounts held of it before,
  -- available and locked.
  pub place_order-Outcome :
      (cached : String → Option OrderBookSnapshot) (request : Order) (w : World)
      → Outcome
          (normalized request)
          (calculate_lock_amount cached (normalized request))
          w.db
          (place_order cached request w)
  unfolding place_order
  place_order-Outcome cached request w =
      elim (Bool-cases (less_than_or_equal (normalized request).quantity zero_dec)) [
        | inl empty ↦ rw empty refl
        | inr enough ↦ elim (Bool-cases (bad_price (normalized request))) [
          | inl unpriced ↦ rw (enough, unpriced) refl
          | inr priced ↦
              rw (enough, priced) (calculated (calculate_lock_amount cached (normalized request)))
        ]
      ]
    where
      calculated :
          (r : Result (String × Decimal))
          → Outcome (normalized request) r w.db ((lifted r >>= place_valid (normalized request)) w)
      calculated (ok l) = place_valid-Outcome (normalized request) l w
      calculated (err e) = refl
