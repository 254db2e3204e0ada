-- ===== src/Store/Orders/Found.antt =====
-- What reading an order answers, and that it changes nothing.
use cyptocurrency_exchange_b.Prelude.{suc, ◌≡◌, refl, inl, inr, Option, none, some, Bool-cases}
use cyptocurrency_exchange_b.Decimal.{DecimalLib}
use cyptocurrency_exchange_b.Engine.Types.{Uuid}
use cyptocurrency_exchange_b.Domain.Models.{Order}
use cyptocurrency_exchange_b.Store.World.{World}
use cyptocurrency_exchange_b.Store.World.After.{After, After-statement}
use cyptocurrency_exchange_b.Store.Orders.{find_order, row_or_none, get_order, get_order_for_update}

module _ ⦃lib : DecimalLib⦄ where
  row-found :
      (id : Uuid) (w : World) (x : Option Order)
      → find_order id w.db.orders ≡ x
      → After
          ((row_or_none x w.db).0, record w { db = (row_or_none x w.db).1; calls = suc w.calls })
          (λ o w'. (find_order id w.db.orders ≡ some o) × (w'.db ≡ w.db))
  row-found id w none e = tt
  row-found id w (some o) e = (e, refl)

  pub get_order-found :
      (id : Uuid) (w : World)
      → After (get_order id w) (λ o w'. (find_order id w.db.orders ≡ some o) × (w'.db ≡ w.db))
  unfolding get_order
  get_order-found id w =
      After-statement (λ db. row_or_none (find_order id db.orders) db) w _
        (row-found id w (find_order id w.db.orders) refl)

  pub get_order_for_update-found :
      (id : Uuid) (w : World)
      → After
          (get_order_for_update id w)
          (λ o w'. (find_order id w.db.orders ≡ some o) × (w'.db ≡ w.db))
  unfolding get_order_for_update
  get_order_for_update-found id w =
      After-statement (λ db. row_or_none (find_order id db.orders) db) w _
        (row-found id w (find_order id w.db.orders) refl)

  pub get_order-db : (id : Uuid) (w : World) → (get_order id w).1.db ≡ w.db
  unfolding get_order
  get_order-db id w = elim (Bool-cases (w.env.fails w.calls)) [
    | inl down ↦ rw down refl
    | inr up ↦ rw up (row-db (find_order id w.db.orders))
  ]
    where
      row-db : (o : Option Order) → (row_or_none o w.db).1 ≡ w.db
      row-db none = refl
      row-db (some o) = refl
