-- ===== src/Engine/Types.antt =====
-- internal/matching/engine/types.go. A UUID is the number that its sixteen bytes write, and an
-- `int16` is its bit pattern: the code only compares them for equality.
use cyptocurrency_exchange_b.Prelude.{ℕ, String, List, []}
use cyptocurrency_exchange_b.Decimal.{DecimalLib, Decimal, zero_dec}

abbrev pub Uuid : Type 0
Uuid = ℕ

abbrev pub OrderSide : Type 0
OrderSide = ℕ

abbrev pub OrderType : Type 0
OrderType = ℕ

abbrev pub side_buy : OrderSide
side_buy = 1

abbrev pub side_sell : OrderSide
side_sell = 2

abbrev pub type_limit : OrderType
type_limit = 1

abbrev pub type_market : OrderType
type_market = 2

module _ ⦃lib : DecimalLib⦄ where
  pub record Order : Type 0 where
    pub id : Uuid
    pub user_id : Uuid
    pub side : OrderSide
    pub type : OrderType
    pub price : Decimal
    pub quantity : Decimal

  -- `NewOrder`
  abbrev pub new_order : Uuid → Uuid → OrderSide → Decimal → Decimal → Order
  new_order id user_id side price quantity = record {
    id = id;
    user_id = user_id;
    side = side;
    type = type_limit;
    price = price;
    quantity = quantity;
  }

  -- `NewMarketOrder`
  abbrev pub new_market_order : Uuid → Uuid → OrderSide → Decimal → Order
  new_market_order id user_id side quantity = record {
    id = id;
    user_id = user_id;
    side = side;
    type = type_market;
    price = zero_dec;
    quantity = quantity;
  }

  pub record Trade : Type 0 where
    pub id : Uuid
    pub symbol : String
    pub maker_order_id : Uuid
    pub taker_order_id : Uuid
    pub price : Decimal
    pub quantity : Decimal
    pub created_at : ℕ

  pub record OrderBookLevel : Type 0 where
    pub price : Decimal
    pub quantity : Decimal

  pub record OrderBookSnapshot : Type 0 where
    pub symbol : String
    pub bids : List OrderBookLevel
    pub asks : List OrderBookLevel
    pub fencing_token : ℕ

  abbrev pub new_order_book_snapshot : String → OrderBookSnapshot
  new_order_book_snapshot symbol = record {
    symbol = symbol;
    bids = [];
    asks = [];
    fencing_token = 0;
  }
