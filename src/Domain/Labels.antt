-- ===== src/Domain/Labels.antt =====
-- internal/domain/models.go: the texts by which the API names sides, types and statuses.
use cyptocurrency_exchange_b.Prelude.{
  String, ◌≡◌, Option, none, some, str_eq, eq_iff, ◌==◌, if◌then◌else◌, arith,
}
use cyptocurrency_exchange_b.Engine.Types.{
  OrderSide, OrderType, side_buy, side_sell, type_limit, type_market,
}
use cyptocurrency_exchange_b.Domain.Models.{
  OrderStatus, status_new, status_partially_filled, status_filled, status_canceled, status_rejected,
}

-- `none` is the error.
unfoldable pub side_from_string : String → Option OrderSide
side_from_string s =
    if str_eq s "BUY" then some side_buy else if str_eq s "SELL" then some side_sell else none

unfoldable pub type_from_string : String → Option OrderType
type_from_string s =
    if str_eq s "LIMIT"
    then some type_limit
    else if str_eq s "MARKET"
    then some type_market
    else none

unfoldable pub side_to_string : OrderSide → String
side_to_string s = if s == side_buy then "BUY" else if s == side_sell then "SELL" else "UNKNOWN"

unfoldable pub type_to_string : OrderType → String
type_to_string t =
    if t == type_limit then "LIMIT" else if t == type_market then "MARKET" else "UNKNOWN"

unfoldable pub status_to_string : OrderStatus → String
status_to_string s =
    if s == status_new
    then "NEW"
    else if s == status_partially_filled
    then "PARTIALLY_FILLED"
    else if s == status_filled
    then "FILLED"
    else if s == status_canceled
    then "CANCELED"
    else if s == status_rejected
    then "REJECTED"
    else "UNKNOWN"

-- A text that is accepted as a side or as a type is the text that the side or type prints as.
pub from_string-to_string :
    (s t : String) (side : OrderSide) (type : OrderType)
    → side_from_string s ≡ some side
    → type_from_string t ≡ some type
    → (side_to_string side ≡ s) × (type_to_string type ≡ t)
unfolding side_from_string side_to_string type_from_string type_to_string
from_string-to_string s t side type e f = (
  ground (arith, eq_iff s "BUY", eq_iff s "SELL"),
  ground (arith, eq_iff t "LIMIT", eq_iff t "MARKET"),
)
