-- ===== src/Api/Orders.antt =====
-- internal/api/validator.go and the handlers of internal/api/order_handlers.go that place and cancel
-- orders. A handler takes what gin has bound, `none` where that failed, and returns the answer.
pub mod Checked
pub mod Accepted
use cyptocurrency_exchange_b.Prelude.{
  ℕ, String, Bool, true, false, Option, none, some, List, [], ◌∷◌, length, str_eq, if◌then◌else◌,
}
use cyptocurrency_exchange_b.Prelude.Int.{ℤ, negsuc, ltb_ℤ}
use cyptocurrency_exchange_b.Decimal.{
  DecimalLib, Decimal, zero_dec, from_int, greater_than, less_than_or_equal,
}
use cyptocurrency_exchange_b.Engine.Types.{Uuid, OrderSide, OrderType, OrderBookSnapshot}
use cyptocurrency_exchange_b.Domain.Models.{Order}
use cyptocurrency_exchange_b.Domain.Labels.{side_from_string, type_from_string}
use cyptocurrency_exchange_b.Store.World.{
  Error, insufficient_funds, Result, ok, err, World, Message, Action,
}
use cyptocurrency_exchange_b.OrderService.Symbols.{to_upper}
use cyptocurrency_exchange_b.OrderService.Placing.{place_order, batch_place_orders, cancel_order}

-- Packages that the handlers call: `uuid.Parse`, `none` for its error, `regexp`, by pattern and text,
-- and `Decimal.Exponent`.
pub record Packages ⦃lib : DecimalLib⦄ : Type 0 where
  pub parse_uuid : String → Option Uuid
  pub match_string : String → String → Bool
  pub exponent : Decimal → ℤ

-- What an answer reports as its error.
pub data Reason : Type 0 where
  unbound empty_batch bad_symbol bad_user_id missing_user_id bad_order_id bad_side bad_type : Reason
  quantity_not_positive quantity_too_large quantity_too_fine : Reason
  price_not_positive price_too_large price_too_fine : Reason
  service : Error → Reason

pub data Body : Type 0 where
  refused : Reason → Body
  order_id : Uuid → Body
  batch_accepted : ℕ → Body
  canceled : Body

-- What reading a request ends with.
pub data Read (A : Type 0) : Type 0 where
  bad : Reason → Read A
  good : A → Read A

abbrev pub symbol_pattern : String
symbol_pattern = "^[A-Z]{2,10}-[A-Z]{2,10}$"

module _ ⦃lib : DecimalLib⦄ where
  pub record PlaceOrderRequest : Type 0 where
    pub user_id : String
    pub symbol : String
    pub side : String
    pub type : String
    pub price : Decimal
    pub quantity : Decimal

  abbrev pub max_quantity : Decimal
  max_quantity = from_int 1000000

  abbrev pub max_price : Decimal
  max_price = from_int 100000000

  abbrev pub Answer : Type 0
  Answer = (ℕ × Body) × World

  abbrev pub new_order_of : PlaceOrderRequest → Uuid → OrderSide → OrderType → Order
  new_order_of req user_id side type = record {
    id = 0;
    user_id = user_id;
    symbol = req.symbol;
    side = side;
    type = type;
    price = req.price;
    quantity = req.quantity;
    filled_quantity = zero_dec;
    status = 0;
    created_at = 0;
    updated_at = 0;
  }

  abbrev pub read_type : PlaceOrderRequest → Uuid → OrderSide → Option OrderType → Read Order
  read_type req user_id side none = bad bad_type
  read_type req user_id side (some type) = good (new_order_of req user_id side type)

  abbrev pub read_side : PlaceOrderRequest → Uuid → Option OrderSide → Read Order
  read_side req user_id none = bad bad_side
  read_side req user_id (some side) = read_type req user_id side (type_from_string req.type)

  abbrev pub read_user : PlaceOrderRequest → Option Uuid → Read Order
  read_user req none = bad bad_user_id
  read_user req (some user_id) = read_side req user_id (side_from_string req.side)

  -- 400 for too few funds, 500 for any other error
  abbrev pub is_insufficient_funds : Error → Bool
  is_insufficient_funds insufficient_funds = true
  is_insufficient_funds _ = false

  abbrev pub service_status : Error → ℕ
  service_status e = if is_insufficient_funds e then 400 else 500

  abbrev pub answer_placed : Result (Order × Message) × World → Answer
  answer_placed (ok (order, msg), w) = ((202, order_id order.id), w)
  answer_placed (err e, w) = ((service_status e, refused (service e)), w)

  abbrev pub answer_batch : Result (List Order × List Message) × World → Answer
  answer_batch (ok (orders, msgs), w) = ((202, batch_accepted (length orders)), w)
  answer_batch (err e, w) = ((service_status e, refused (service e)), w)

  abbrev pub answer_canceled : Result Message × World → Answer
  answer_canceled (ok msg, w) = ((200, canceled), w)
  answer_canceled (err e, w) = ((400, refused (service e)), w)

  module _ (packages : Packages) where
    abbrev pub limit_price_fault : PlaceOrderRequest → Option Reason
    limit_price_fault req =
        if less_than_or_equal req.price zero_dec
        then some price_not_positive
        else if greater_than req.price max_price
        then some price_too_large
        else if ltb_ℤ (packages.exponent req.price) (negsuc 7)
        then some price_too_fine
        else none

    -- `none` is the `nil` error
    unfoldable pub validate_place_order_request : PlaceOrderRequest → Option Reason
    validate_place_order_request req =
        if packages.match_string symbol_pattern (to_upper req.symbol)
        then (if less_than_or_equal req.quantity zero_dec
            then some quantity_not_positive
            else if greater_than req.quantity max_quantity
            then some quantity_too_large
            else if ltb_ℤ (packages.exponent req.quantity) (negsuc 7)
            then some quantity_too_fine
            else if str_eq req.type "LIMIT"
            then limit_price_fault req
            else none)
        else some bad_symbol

    abbrev pub read_valid : PlaceOrderRequest → Option Reason → Read Order
    read_valid req (some reason) = bad reason
    read_valid req none = read_user req (packages.parse_uuid req.user_id)

    unfoldable pub read_order : PlaceOrderRequest → Read Order
    unfolding validate_place_order_request
    read_order req = read_valid req (validate_place_order_request req)

    -- the loop of the batch, up to the first request that is refused
    unfoldable pub read_orders : List PlaceOrderRequest → Read (List Order)
    unfolding read_order
    read_orders [] = good []
    read_orders (req ∷ reqs) =
        let rest = read_orders reqs in
        elim (read_order req) [
          | bad reason ↦ bad reason
          | good order ↦ (elim rest [
            | bad reason ↦ bad reason
            | good orders ↦ good (order ∷ orders)
          ])
        ]

    module _ (cached : String → Option OrderBookSnapshot) where
      abbrev pub place_read : Read Order → World → Answer
      place_read (bad reason) w = ((400, refused reason), w)
      place_read (good order) w = answer_placed (place_order cached order w)

      unfoldable pub handle_place_order : Option PlaceOrderRequest → World → Answer
      unfolding read_order
      handle_place_order none w = ((400, refused unbound), w)
      handle_place_order (some req) w = place_read (read_order req) w

      abbrev pub place_read_batch : Read (List Order) → World → Answer
      place_read_batch (bad reason) w = ((400, refused reason), w)
      place_read_batch (good orders) w = answer_batch (batch_place_orders cached orders w)

      unfoldable pub handle_batch_place_orders : Option (List PlaceOrderRequest) → World → Answer
      unfolding read_orders
      handle_batch_place_orders none w = ((400, refused unbound), w)
      handle_batch_place_orders (some []) w = ((400, refused empty_batch), w)
      handle_batch_place_orders (some (req ∷ reqs)) w =
          place_read_batch (read_orders (req ∷ reqs)) w

    abbrev pub cancel_for : Uuid → Option Uuid → World → Answer
    cancel_for id none w = ((400, refused bad_user_id), w)
    cancel_for id (some user_id) w = answer_canceled (cancel_order id user_id w)

    -- the user is named by the header, or else by the query
    abbrev pub cancel_by : Option Uuid → String → String → World → Answer
    cancel_by none header query w = ((400, refused bad_order_id), w)
    cancel_by (some id) header query w =
        let named = if str_eq header "" then query else header in
        if str_eq named ""
        then ((400, refused missing_user_id), w)
        else cancel_for id (packages.parse_uuid named) w

    unfoldable pub handle_cancel_order : String → String → String → World → Answer
    handle_cancel_order id header query w = cancel_by (packages.parse_uuid id) header query w
