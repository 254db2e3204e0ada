-- ===== src/Domain/Models.antt =====
-- internal/domain/models.go: the stored rows. A status is an `int16`, read as its bit pattern.
use cyptocurrency_exchange_b.Prelude.{ℕ, String, Bool, ◌||◌, str_eq}
use cyptocurrency_exchange_b.Decimal.{DecimalLib, Decimal}
use cyptocurrency_exchange_b.Engine.Types.{Uuid, OrderSide, OrderType}

abbrev pub OrderStatus : Type 0
OrderStatus = ℕ

abbrev pub status_new : OrderStatus
status_new = 1

abbrev pub status_partially_filled : OrderStatus
status_partially_filled = 2

abbrev pub status_filled : OrderStatus
status_filled = 3

abbrev pub status_canceled : OrderStatus
status_canceled = 4

abbrev pub status_rejected : OrderStatus
status_rejected = 5

-- the keys of `allowedSymbols`, all of which map to true
unfoldable pub is_symbol_allowed : String → Bool
is_symbol_allowed symbol = str_eq symbol "BTC-USD" || str_eq symbol "ETH-USD"

pub record User : Type 0 where
  pub id : Uuid
  pub email : String
  pub password_hash : String
  pub created_at : ℕ
  pub updated_at : ℕ

module _ ⦃lib : DecimalLib⦄ where
  pub record Account : Type 0 where
    pub id : Uuid
    pub user_id : Uuid
    pub currency : String
    pub balance : Decimal
    pub locked : Decimal
    pub created_at : ℕ
    pub updated_at : ℕ

  pub record Order : Type 0 where
    pub id : Uuid
    pub user_id : Uuid
    pub symbol : String
    pub side : OrderSide
    pub type : OrderType
    pub price : Decimal
    pub quantity : Decimal
    pub filled_quantity : Decimal
    pub status : OrderStatus
    pub created_at : ℕ
    pub updated_at : ℕ

  pub record KLine : Type 0 where
    pub timestamp : ℕ
    pub open_price : Decimal
    pub high : Decimal
    pub low : Decimal
    pub close : Decimal
    pub volume : Decimal
