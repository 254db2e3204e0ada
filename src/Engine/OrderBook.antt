-- ===== src/Engine/OrderBook.antt =====
-- internal/matching/engine/orderbook.go. A slice of order pointers is the list of the orders: the
-- book alone holds them, and a write through `bids[0]` or `asks[0]` is a new first element.
pub mod Sort
pub mod Sorted
pub mod Removal
use cyptocurrency_exchange_b.Prelude.{
  ℕ, String, Bool, true, false, Option, none, some, List, [], ◌∷◌, ◌++◌, ◌==◌, length,
  if◌then◌else◌,
}
use cyptocurrency_exchange_b.Decimal.{
  DecimalLib, Decimal, zero_dec, add, sub, mul, less_than, greater_than, is_zero,
}
use cyptocurrency_exchange_b.Engine.Types.{Uuid, OrderSide, side_buy, Order}

-- `sort.SliceStable(s, less)` of the standard library: the stable sort by `less`, here by insertion.
-- An element goes behind those that it is not less than.
module _ {ℓ} {A : Type ℓ} (less : A → A → Bool) where
  unfoldable pub insert_stable : A → List A → List A
  insert_stable a [] = a ∷ []
  insert_stable a (x ∷ xs) = if less a x then a ∷ x ∷ xs else x ∷ insert_stable a xs

  unfoldable pub sort_from : List A → List A → List A
  sort_from done [] = done
  sort_from done (x ∷ xs) = sort_from (insert_stable x done) xs

  unfoldable pub slice_stable : List A → List A
  unfolding sort_from insert_stable
  slice_stable xs = sort_from [] xs

module _ ⦃lib : DecimalLib⦄ where
  pub record OrderBook : Type 0 where
    pub symbol : String
    pub bids : List Order
    pub asks : List Order

  abbrev pub new_order_book : String → OrderBook
  new_order_book symbol = record { symbol = symbol; bids = []; asks = [] }

  unfoldable pub bid_count : OrderBook → ℕ
  bid_count ob = length ob.bids

  unfoldable pub ask_count : OrderBook → ℕ
  ask_count ob = length ob.asks

  -- `ob.bids[i].Price.GreaterThan(ob.bids[j].Price)`
  abbrev pub bid_less : Order → Order → Bool
  bid_less a b = greater_than a.price b.price

  -- `ob.asks[i].Price.LessThan(ob.asks[j].Price)`
  abbrev pub ask_less : Order → Order → Bool
  ask_less a b = less_than a.price b.price

  unfoldable pub add_order : OrderBook → Order → OrderBook
  add_order ob order =
      if order.side == side_buy
      then record ob { bids = slice_stable bid_less (ob.bids ++ order ∷ []) }
      else record ob { asks = slice_stable ask_less (ob.asks ++ order ∷ []) }

  abbrev head : List Order → Option Order
  head [] = none
  head (o ∷ _) = some o

  abbrev rest : List Order → List Order
  rest [] = []
  rest (_ ∷ os) = os

  unfoldable pub best_bid : OrderBook → Option Order
  best_bid ob = head ob.bids

  unfoldable pub best_ask : OrderBook → Option Order
  best_ask ob = head ob.asks

  unfoldable pub remove_best_bid : OrderBook → OrderBook
  remove_best_bid ob = record ob { bids = rest ob.bids }

  unfoldable pub remove_best_ask : OrderBook → OrderBook
  remove_best_ask ob = record ob { asks = rest ob.asks }

  -- the scan of `RemoveOrder`: the first order with the ID is cut out
  unfoldable pub remove_id : Uuid → List Order → List Order × Bool
  remove_id order_id [] = ([], false)
  remove_id order_id (o ∷ os) =
      let (os', found) = remove_id order_id os in
      if o.id == order_id then (os, true) else (o ∷ os', found)

  unfoldable pub remove_order : OrderBook → Uuid → OrderSide → OrderBook × Bool
  unfolding remove_id
  remove_order ob order_id side =
      if side == side_buy
      then (let (bids, found) = remove_id order_id ob.bids in (record ob { bids = bids }, found))
      else (let (asks, found) = remove_id order_id ob.asks in (record ob { asks = asks }, found))

  abbrev pub min_qty : Decimal → Decimal → Decimal
  min_qty wanted offered = if less_than offered wanted then offered else wanted

  -- The loop of `EstimateMarketBuyRequiredFunds`; `none` is the error.
  unfoldable pub estimate_from : List Order → Decimal → Decimal → Option Decimal
  estimate_from [] remaining_qty total_cost = none
  estimate_from (ask ∷ asks) remaining_qty total_cost =
      let match_qty = min_qty remaining_qty ask.quantity in
      let total_cost' = add total_cost (mul ask.price match_qty) in
      let remaining_qty' = sub remaining_qty match_qty in
      let next = estimate_from asks remaining_qty' total_cost' in
      if is_zero remaining_qty' then some total_cost' else next

  unfoldable pub estimate_market_buy_required_funds : OrderBook → Decimal → Option Decimal
  unfolding estimate_from
  estimate_market_buy_required_funds ob quantity = estimate_from ob.asks quantity zero_dec
