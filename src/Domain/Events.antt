-- ===== src/Domain/Events.antt =====
-- internal/domain/events.go: topics and events. An event's `event_type` is its constructor.
use cyptocurrency_exchange_b.Prelude.{ℕ, String, List}
use cyptocurrency_exchange_b.Decimal.{DecimalLib, Decimal}
use cyptocurrency_exchange_b.Engine.Types.{Uuid, OrderSide, OrderType, Trade, OrderBookSnapshot}
use cyptocurrency_exchange_b.Domain.Models.{Order}

pub data Topic : Type 0 where
  orders settlements trades order_book order_updates : Topic

module _ ⦃lib : DecimalLib⦄ where
  pub record OrderPlacedEvent : Type 0 where
    pub symbol : String
    pub order_id : Uuid
    pub user_id : Uuid
    pub side : OrderSide
    pub type : OrderType
    pub price : Decimal
    pub quantity : Decimal
    pub created_at : ℕ
    pub amount_locked : Decimal
    pub locked_currency : String

  pub record OrderCancelRequestedEvent : Type 0 where
    pub symbol : String
    pub order_id : Uuid
    pub side : OrderSide
    pub user_id : Uuid

  pub record OrderCanceledEvent : Type 0 where
    pub symbol : String
    pub order_id : Uuid
    pub user_id : Uuid
    pub fencing_token : ℕ

  pub record SettlementRequestedEvent : Type 0 where
    pub symbol : String
    pub taker_order_id : Uuid
    pub amount_locked : Decimal
    pub locked_currency : String
    pub remaining_qty : Decimal
    pub trades : List Trade
    pub fencing_token : ℕ

  pub record TradeExecutedEvent : Type 0 where
    pub symbol : String
    pub trade_id : Uuid
    pub maker_order_id : Uuid
    pub taker_order_id : Uuid
    pub price : Decimal
    pub quantity : Decimal
    pub created_at : ℕ

  pub record OrderBookUpdatedEvent : Type 0 where
    pub symbol : String
    pub snapshot : OrderBookSnapshot

  pub record OrderUpdatedEvent : Type 0 where
    pub symbol : String
    pub order : Order

  pub data Event : Type 0 where
    order_placed : OrderPlacedEvent → Event
    order_cancel_requested : OrderCancelRequestedEvent → Event
    order_canceled : OrderCanceledEvent → Event
    settlement_requested : SettlementRequestedEvent → Event
    trade_executed : TradeExecutedEvent → Event
    order_book_updated : OrderBookUpdatedEvent → Event
    order_updated : OrderUpdatedEvent → Event

  -- A message as the broker has it.
  pub record Sent : Type 0 where
    pub topic : Topic
    pub key : String
    pub event : Event
