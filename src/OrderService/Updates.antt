-- ===== src/OrderService/Updates.antt =====
-- internal/order/event_subscribers.go: what a trade does to accounts, and how a settlement's updates
-- are put together and ordered.
use mathlib.Core.Option
use cyptocurrency_exchange_b.Prelude.{
  String, Bool, not, ◌&&◌, ◌||◌, Option, List, [], ◌∷◌, ltb, str_eq, str_lt, ◌==◌, if◌then◌else◌,
}
use cyptocurrency_exchange_b.Decimal.{DecimalLib, Decimal, zero_dec, add, mul, neg, round8, is_zero}
use cyptocurrency_exchange_b.Engine.Types.{Uuid, Trade, side_buy, type_market}
use cyptocurrency_exchange_b.Engine.OrderBook.{slice_stable}
use cyptocurrency_exchange_b.Domain.Models.{Order}
use cyptocurrency_exchange_b.OrderService.Symbols.{split_symbol}

module _ ⦃lib : DecimalLib⦄ where
  pub record AccountUpdate : Type 0 where
    pub user_id : Uuid
    pub currency : String
    pub amount : Decimal
    pub unlock : Decimal

  abbrev pub account_update : Uuid → String → Decimal → Decimal → AccountUpdate
  account_update user_id currency amount unlock = record {
    user_id = user_id;
    currency = currency;
    amount = amount;
    unlock = unlock;
  }

  -- What the buyer's lock of a trade was: at the limit price, if the buyer is a limit taker.
  abbrev pub buyer_unlock : Trade → Order → Order → Decimal
  buyer_unlock trade taker buyer =
      let trade_value = mul trade.price trade.quantity in
      if buyer.id == taker.id
      then (if taker.type == type_market
          then trade_value
          else if not (is_zero taker.price)
          then mul taker.price trade.quantity
          else trade_value)
      else trade_value

  abbrev pub trade_updates : Trade → Order → Order → Order → String × String → List AccountUpdate
  trade_updates trade taker buyer seller (base, quote) =
      let trade_value = round8 (mul trade.price trade.quantity) in
      let trade_qty = round8 trade.quantity in
      account_update buyer.user_id quote (neg trade_value) (round8 (buyer_unlock trade taker buyer))
      ∷ account_update buyer.user_id base trade_qty zero_dec
      ∷ account_update seller.user_id base (neg trade_qty) trade_qty
      ∷ account_update seller.user_id quote trade_value zero_dec
      ∷ []

  -- `none` is the error of `splitSymbol`.
  unfoldable pub calculate_trade_settlement : Trade → Order → Order → Option (List AccountUpdate)
  calculate_trade_settlement trade taker maker =
      let buyer = if taker.side == side_buy then taker else maker in
      let seller = if taker.side == side_buy then maker else taker in
      Option.map (trade_updates trade taker buyer seller) (split_symbol taker.symbol)

  -- The map of `aggregateAndSortAccountUpdates`, keyed by user and currency.
  abbrev pub same_key : AccountUpdate → AccountUpdate → Bool
  same_key a b = a.user_id == b.user_id && str_eq a.currency b.currency

  unfoldable pub merge : AccountUpdate → List AccountUpdate → List AccountUpdate
  merge up [] = up ∷ []
  merge up (a ∷ agg) =
      if same_key a up
      then record a { amount = add a.amount up.amount; unlock = add a.unlock up.unlock } ∷ agg
      else a ∷ merge up agg

  unfoldable pub merge_all : List AccountUpdate → List AccountUpdate → List AccountUpdate
  merge_all agg [] = agg
  merge_all agg (up ∷ ups) = merge_all (merge up agg) ups

  unfoldable pub nonzero : List AccountUpdate → List AccountUpdate
  nonzero [] = []
  nonzero (a ∷ agg) =
      let rest = nonzero agg in
      if not (is_zero a.amount) || not (is_zero a.unlock) then a ∷ rest else rest

  -- UUIDs are compared by their texts, which order as the numbers do.
  abbrev pub update_less : AccountUpdate → AccountUpdate → Bool
  update_less a b =
      if not (a.user_id == b.user_id) then ltb a.user_id b.user_id else str_lt a.currency b.currency

  unfoldable pub aggregate_and_sort : List AccountUpdate → List AccountUpdate
  unfolding merge merge_all nonzero
  aggregate_and_sort updates = slice_stable update_less (nonzero (merge_all [] updates))
