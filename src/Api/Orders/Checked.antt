-- ===== src/Api/Orders/Checked.antt =====
-- What the checks of a request to place an order have seen to.
use cyptocurrency_exchange_b.Prelude.{
  ◌≡◌, refl, Bool, true, false, Option, none, some, str_eq, if◌then◌else◌,
}
use cyptocurrency_exchange_b.Prelude.Int.{negsuc, ltb_ℤ, ◌≤ℤ◌, ◌<ℤ◌}
use cyptocurrency_exchange_b.Decimal.{
  DecimalLib, Decimal, value, zero_dec, greater_than, less_than_or_equal,
}
use cyptocurrency_exchange_b.Decimal.Laws.{less_than_or_equal→gt, greater_than→ge}
use cyptocurrency_exchange_b.Engine.Types.{Uuid, OrderSide, OrderType}
use cyptocurrency_exchange_b.Domain.Models.{Order}
use cyptocurrency_exchange_b.Domain.Labels.{side_from_string, type_from_string}
use cyptocurrency_exchange_b.OrderService.Symbols.{to_upper}
use cyptocurrency_exchange_b.Api.Orders.{
  Packages, Reason, Read, bad, good, symbol_pattern, PlaceOrderRequest, max_quantity, max_price,
  read_type, read_side, read_user, read_valid, limit_price_fault, validate_place_order_request,
  read_order,
}

module _ ⦃lib : DecimalLib⦄ (packages : Packages) where
  -- A number above zero, up to a greatest one, with at most eight decimals.
  pub record InRange (d greatest : Decimal) : Type 0 where
    pub above : value zero_dec <ℤ value d
    pub below : value d ≤ℤ value greatest
    pub fine : ltb_ℤ (packages.exponent d) (negsuc 7) ≡ false

  abbrev pub PriceInRange : Bool → Decimal → Type 0
  PriceInRange true price = InRange price max_price
  PriceInRange false price = Unit {0}

  pub record IsValidRequest (req : PlaceOrderRequest) : Type 0 where
    pub symbol : packages.match_string symbol_pattern (to_upper req.symbol) ≡ true
    pub quantity : InRange req.quantity max_quantity
    pub price : PriceInRange (str_eq req.type "LIMIT") req.price

  -- The order says what the request says.
  pub record Reads (req : PlaceOrderRequest) (order : Order) : Type 0 where
    pub user : packages.parse_uuid req.user_id ≡ some order.user_id
    pub side : side_from_string req.side ≡ some order.side
    pub type : type_from_string req.type ≡ some order.type
    pub symbol : order.symbol ≡ req.symbol
    pub price : order.price ≡ req.price
    pub quantity : order.quantity ≡ req.quantity

  -- What a check that ends with a reason, or with none, has seen to.
  abbrev Unless : Option Reason → Type 0 → Type 0
  Unless (some reason) P = Unit {0}
  Unless none P = P

  unless_if :
      (b : Bool) (reason : Reason) (o : Option Reason) (P : Type 0)
      → (b ≡ false → Unless o P)
      → Unless (if b then some reason else o) P
  unless_if true reason o P h = tt
  unless_if false reason o P h = h refl

  unless_else :
      (b : Bool) (reason : Reason) (o : Option Reason) (P : Type 0)
      → (b ≡ true → Unless o P)
      → Unless (if b then o else some reason) P
  unless_else true reason o P h = h refl
  unless_else false reason o P h = tt

  Unless-weaken : (o : Option Reason) (P Q : Type 0) → Unless o P → (P → Q) → Unless o Q
  Unless-weaken (some reason) P Q h k = tt
  Unless-weaken none P Q h k = k h

  limit_price_fault-InRange :
      (req : PlaceOrderRequest)
      → Unless (limit_price_fault packages req) (InRange req.price max_price)
  limit_price_fault-InRange req = unless_if (less_than_or_equal req.price zero_dec) _ _ _ (λ above.
      unless_if (greater_than req.price max_price) _ _ _ (λ below.
        unless_if (ltb_ℤ (packages.exponent req.price) (negsuc 7)) _ _ _ (λ fine. record {
          above = less_than_or_equal→gt req.price zero_dec above;
          below = greater_than→ge req.price max_price below;
          fine = fine;
        })))

  validate-IsValidRequest :
      (req : PlaceOrderRequest)
      → Unless (validate_place_order_request packages req) (IsValidRequest req)
  unfolding validate_place_order_request
  validate-IsValidRequest req =
      unless_else (packages.match_string symbol_pattern (to_upper req.symbol)) _ _ _ (λ symbol.
        unless_if (less_than_or_equal req.quantity zero_dec) _ _ _ (λ above.
          unless_if (greater_than req.quantity max_quantity) _ _ _ (λ below.
            unless_if (ltb_ℤ (packages.exponent req.quantity) (negsuc 7)) _ _ _ (λ fine.
              Unless-weaken
                (if str_eq req.type "LIMIT" then limit_price_fault packages req else none)
                (PriceInRange (str_eq req.type "LIMIT") req.price) (IsValidRequest req)
                (price (str_eq req.type "LIMIT"))
                (λ in_range. record {
                  symbol = symbol;
                  quantity = record {
                    above = less_than_or_equal→gt req.quantity zero_dec above;
                    below = greater_than→ge req.quantity max_quantity below;
                    fine = fine;
                  };
                  price = in_range;
                })))))
    where
      price :
          (b : Bool)
          → Unless (if b then limit_price_fault packages req else none) (PriceInRange b req.price)
      price true = limit_price_fault-InRange req
      price false = tt

  abbrev pub ReadsWell : PlaceOrderRequest → Read Order → Type 0
  ReadsWell req (bad reason) = Unit {0}
  ReadsWell req (good order) = IsValidRequest req × Reads req order

  pub read_order-ReadsWell : (req : PlaceOrderRequest) → ReadsWell req (read_order packages req)
  unfolding read_order
  read_order-ReadsWell req =
      validated (validate_place_order_request packages req) (validate-IsValidRequest req)
    where
      typed :
          (user_id : Uuid) (side : OrderSide) (o : Option OrderType)
          → IsValidRequest req
          → packages.parse_uuid req.user_id ≡ some user_id
          → side_from_string req.side ≡ some side
          → type_from_string req.type ≡ o
          → ReadsWell req (read_type req user_id side o)
      typed user_id side none valid user sided typed_as = tt
      typed user_id side (some type) valid user sided typed_as = (
        valid,
        record {
          user = user;
          side = sided;
          type = typed_as;
          symbol = refl;
          price = refl;
          quantity = refl;
        },
      )

      sided :
          (user_id : Uuid) (o : Option OrderSide)
          → IsValidRequest req
          → packages.parse_uuid req.user_id ≡ some user_id
          → side_from_string req.side ≡ o
          → ReadsWell req (read_side req user_id o)
      sided user_id none valid user sided_as = tt
      sided user_id (some side) valid user sided_as =
          typed user_id side (type_from_string req.type) valid user sided_as refl

      named :
          (o : Option Uuid)
          → IsValidRequest req
          → packages.parse_uuid req.user_id ≡ o
          → ReadsWell req (read_user req o)
      named none valid user = tt
      named (some user_id) valid user = sided user_id (side_from_string req.side) valid user refl

      validated :
          (o : Option Reason)
          → Unless o (IsValidRequest req)
          → ReadsWell req (read_valid packages req o)
      validated (some reason) h = tt
      validated none valid = named (packages.parse_uuid req.user_id) valid refl
