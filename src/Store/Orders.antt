-- ===== src/Store/Orders.antt =====
-- internal/repository/order_repository.go over the `orders` table.
pub mod Found
use cyptocurrency_exchange_b.Prelude.{
  Bool, false, ◌&&◌, ◌||◌, Option, none, some, List, [], ◌∷◌, ◌++◌, ltb, ◌==◌, if◌then◌else◌,
}
use cyptocurrency_exchange_b.Decimal.{DecimalLib}
use cyptocurrency_exchange_b.Engine.Types.{Uuid, Trade, type_limit}
use cyptocurrency_exchange_b.Engine.OrderBook.{slice_stable}
use cyptocurrency_exchange_b.Domain.Models.{Order, status_new, status_partially_filled}
use cyptocurrency_exchange_b.Store.World.{db_error, no_rows, Result, ok, err, Db, Action, statement}

module _ ⦃lib : DecimalLib⦄ where
  abbrev pub find_order : Uuid → List Order → Option Order
  find_order id [] = none
  find_order id (o ∷ rows) = if o.id == id then some o else find_order id rows

  -- the primary key refuses a second row with the ID
  abbrev pub insert_new : Order → Option Order → Db → Result (Unit {0}) × Db
  insert_new order none db = (ok tt, record db { orders = db.orders ++ order ∷ [] })
  insert_new order (some _) db = (err db_error, db)

  unfoldable pub create_order : Order → Action (Unit {0})
  create_order order = statement λ db. insert_new order (find_order order.id db.orders) db

  unfoldable pub insert_all : List Order → List Order → Option (List Order)
  insert_all rows [] = some rows
  insert_all rows (o ∷ os) =
      let more = insert_all (rows ++ o ∷ []) os in
      elim (find_order o.id rows) [ none ↦ more | some _ ↦ none ]

  abbrev pub stored_all : Option (List Order) → Db → Result (Unit {0}) × Db
  stored_all none db = (err db_error, db)
  stored_all (some rows) db = (ok tt, record db { orders = rows })

  -- `CopyFrom` is one statement: all rows go in, or none.
  unfoldable pub batch_create_orders : List Order → Action (Unit {0})
  unfolding insert_all
  batch_create_orders [] w = (ok tt, w)
  batch_create_orders (o ∷ os) w = statement (λ db. stored_all (insert_all db.orders (o ∷ os)) db) w

  abbrev pub row_or_none : Option Order → Db → Result Order × Db
  row_or_none none db = (err no_rows, db)
  row_or_none (some o) db = (ok o, db)

  unfoldable pub get_order : Uuid → Action Order
  get_order id = statement λ db. row_or_none (find_order id db.orders) db

  -- `FOR UPDATE` reads the same row; the lock keeps other transactions off it.
  unfoldable pub get_order_for_update : Uuid → Action Order
  get_order_for_update id = statement λ db. row_or_none (find_order id db.orders) db

  abbrev pub write_order : Order → List Order → List Order
  write_order order [] = []
  write_order order (o ∷ rows) =
      let rest = write_order order rows in
      if o.id == order.id
      then record o {
        filled_quantity = order.filled_quantity;
        status = order.status;
        updated_at = order.updated_at;
      }
        ∷ rest
      else o ∷ rest

  unfoldable pub update_order : Order → Action (Unit {0})
  update_order order = statement λ db. (ok tt, record db { orders = write_order order db.orders })

  abbrev pub select : (Order → Bool) → List Order → List Order
  select p [] = []
  select p (o ∷ rows) = let rest = select p rows in if p o then o ∷ rest else rest

  -- newest first
  unfoldable pub get_orders_by_user : Uuid → Action (List Order)
  get_orders_by_user user_id = statement λ db. (
    ok (
        slice_stable (λ a b. ltb b.created_at a.created_at)
          (select (λ o. o.user_id == user_id) db.orders)),
    db,
  )

  abbrev pub is_active : Order → Bool
  is_active o =
      (o.status == status_new || o.status == status_partially_filled) && o.type == type_limit

  -- oldest first
  unfoldable pub get_active_orders : Action (List Order)
  get_active_orders = statement λ db.
      (ok (slice_stable (λ a b. ltb a.created_at b.created_at) (select is_active db.orders)), db)

  abbrev pub has_order : Uuid → List Order → Bool
  has_order id [] = false
  has_order id (o ∷ rows) = o.id == id || has_order id rows

  abbrev pub is_traded : List Order → List Trade → Bool
  is_traded rows [] = false
  is_traded rows (t ∷ trades) =
      has_order t.maker_order_id rows || (has_order t.taker_order_id rows || is_traded rows trades)

  -- `trades` refers to `orders`: no row goes while a trade has one of them.
  unfoldable pub delete_all_orders : Action (Unit {0})
  delete_all_orders = statement λ db.
      if is_traded db.orders db.trades
      then (err db_error, db)
      else (ok tt, record db { orders = [] })
