-- ===== src/OrderService/Placing/Statements.antt =====
-- What the statements that place an order add, and what a guard that passes says.
use cyptocurrency_exchange_b.Prelude.{
  suc, ◌≡◌, refl, inl, inr, Bool, true, false, Option, none, some, [], ◌∷◌, ◌++◌, Bool-cases,
}
use cyptocurrency_exchange_b.Decimal.{DecimalLib}
use cyptocurrency_exchange_b.Domain.Models.{Order}
use cyptocurrency_exchange_b.Store.World.{Error, World, Message, pure, guard}
use cyptocurrency_exchange_b.Store.World.After.{After, After-bind, After-statement}
use cyptocurrency_exchange_b.Store.Orders.{create_order, find_order, insert_new}
use cyptocurrency_exchange_b.Store.Outbox.{insert, insert_row, has_message, status_pending}

module _ ⦃lib : DecimalLib⦄ where
  pub create_order-adds :
      (o : Order) (w : World)
      → After (create_order o w) (λ _ w'. w'.db ≡ record w.db { orders = w.db.orders ++ o ∷ [] })
  unfolding create_order
  create_order-adds o w =
      After-statement (λ db. insert_new o (find_order o.id db.orders) db) w
        (λ _ w'. w'.db ≡ record w.db { orders = w.db.orders ++ o ∷ [] })
        (added (find_order o.id w.db.orders))
    where
      added :
          (x : Option Order)
          → After
              (
                (insert_new o x w.db).0,
                record w { db = (insert_new o x w.db).1; calls = suc w.calls },
              )
              (λ _ w'. w'.db ≡ record w.db { orders = w.db.orders ++ o ∷ [] })
      added none = refl
      added (some _) = tt

  insert_row-adds :
      (m : Message) (w : World)
      → After (insert_row m w) (λ _ w'. w'.db ≡ record w.db { outbox = w.db.outbox ++ m ∷ [] })
  insert_row-adds m w = elim (Bool-cases (w.env.fails w.calls)) [
    | inl down ↦ rw down tt
    | inr up ↦ elim (Bool-cases (has_message m.id w.db.outbox)) [
      | inl twice ↦ rw (up, twice) tt
      | inr once ↦ rw (up, once) refl
    ]
  ]

  pub insert-adds :
      (m : Message) (w : World)
      → After (insert m w) (λ m' w'.
        (w'.db ≡ record w.db { outbox = w.db.outbox ++ m' ∷ [] })
        × ((m'.payload ≡ m.payload) × (m'.topic ≡ m.topic)))
  unfolding insert
  insert-adds m w =
      let at = w.env.unix_milli (suc w.calls) in
      let w1 = record w { calls = suc (suc w.calls) } in
      let row : Message = record m {
        id = elim (w.env.new_v7 w.calls) [ none ↦ 0 | some id ↦ id ];
        created_at = at;
        status = status_pending;
      } in
      After-bind (insert_row row) (λ _. pure row) w1
        (λ _ w'. w'.db ≡ record w.db { outbox = w.db.outbox ++ row ∷ [] }) _
        (insert_row-adds row w1) (λ _ w' same. (same, (refl, refl)))

  pub guarded :
      (b : Bool) (e : Error) (w : World) → After (guard b e w) (λ _ w'. (b ≡ true) × (w'.db ≡ w.db))
  guarded true e w = (refl, refl)
  guarded false e w = tt
