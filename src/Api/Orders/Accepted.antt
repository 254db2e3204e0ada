-- ===== src/Api/Orders/Accepted.antt =====
-- What an answer of the order handlers says about the request and the database.
use cyptocurrency_exchange_b.Prelude.{◌==◌, ℕ, ◌≤◌, String, ◌≡◌, Bool, true, false, Option, some}
use cyptocurrency_exchange_b.Decimal.{DecimalLib, Decimal, zero_dec, mul, round8}
use cyptocurrency_exchange_b.Engine.Types.{Uuid, OrderBookSnapshot, side_buy, type_limit}
use cyptocurrency_exchange_b.Domain.Models.{Order}
use cyptocurrency_exchange_b.Store.World.{Result, ok, err, Db, World, Message}
use cyptocurrency_exchange_b.OrderService.Placing.{calculate_lock_amount, normalized, as_new}
use cyptocurrency_exchange_b.OrderService.Placing.Placed.{Placed}
use cyptocurrency_exchange_b.Api.Orders.{
  Packages, refused, order_id, batch_accepted, canceled, PlaceOrderRequest, Answer,
}
use cyptocurrency_exchange_b.Api.Orders.Checked.{IsValidRequest, Reads}

module _ ⦃lib : DecimalLib⦄ (packages : Packages) where
  -- What has to be locked: the price of a limit order to buy, and the quantity of an order to sell. A
  -- market order to buy has its price estimated.
  abbrev pub Covers : Bool → Bool → Decimal → Decimal → Decimal → Type 0
  Covers true true price quantity amount = amount ≡ mul price quantity
  Covers true false price quantity amount = Unit {0}
  Covers false limit price quantity amount = amount ≡ quantity

  abbrev amount_of : Result (String × Decimal) → Decimal
  amount_of (ok (currency, amount)) = amount
  amount_of (err e) = zero_dec

  -- A request that was accepted, with the order and the message that it left.
  pub record Accepts (cached : String → Option OrderBookSnapshot) (bound : Option PlaceOrderRequest)
      (id : Uuid) (before after : Db) : Type 0 where
    pub req : PlaceOrderRequest
    pub is_bound : bound ≡ some req
    pub valid : IsValidRequest packages req
    pub requested : Order
    pub reads : Reads packages req requested
    pub at : ℕ
    pub lock : String × Decimal
    pub msg : Message
    pub priced : calculate_lock_amount cached (normalized requested) ≡ ok lock
    pub covers :
        Covers
          (requested.side == side_buy)
          (requested.type == type_limit)
          (round8 requested.price)
          (round8 requested.quantity)
          lock.1
    pub placed : Placed lock.0 lock.1 (as_new id at (normalized requested)) msg before after

  abbrev pub Answered :
      (String → Option OrderBookSnapshot) → Option PlaceOrderRequest → Db → Answer → Type 0
  Answered cached bound before ((status, order_id id), w) =
      (status ≡ 202) × Accepts cached bound id before w.db
  Answered cached bound before ((status, refused reason), w) = (400 ≤ status) × (w.db ≡ before)
  Answered cached bound before ((status, batch_accepted n), w) = ⊥
  Answered cached bound before ((status, canceled), w) = ⊥
