-- ===== src/MatchingService/Rests.antt =====
-- Which orders that come by message wait in a book.
use cyptocurrency_exchange_b.Prelude.{
  ℕ, ◌≡◌, refl, ap, sym, ◌∙◌, Bool, false, ◌||◌, some, length, ltb, ◌==◌, if◌then◌else◌, arith,
}
use cyptocurrency_exchange_b.Prelude.Int.{pos, ◌<ℤ◌}
use cyptocurrency_exchange_b.Decimal.{DecimalLib, value, is_zero}
use cyptocurrency_exchange_b.Engine.Types.{Order, side_buy, side_sell, type_limit, type_market}
use cyptocurrency_exchange_b.Engine.OrderBook.{add_order}
use cyptocurrency_exchange_b.Engine.Matching.{Processed, process}
use cyptocurrency_exchange_b.Engine.Matching.Process.{process-Runs}
use cyptocurrency_exchange_b.Engine.Matching.Resting.{process-rests}
use cyptocurrency_exchange_b.Engine.Manager.{get_engine}
use cyptocurrency_exchange_b.Domain.Events.{OrderPlacedEvent}
use cyptocurrency_exchange_b.MatchingService.Bus.{Subscriber}
use cyptocurrency_exchange_b.MatchingService.{convert_to_matching_order, needs_settlement}
use cyptocurrency_exchange_b.MatchingService.Keeps.{convert-HasQuantity, process_same}

module _ ⦃lib : DecimalLib⦄ where
  -- The limit order that an event describes: its ID, user, price and quantity, to buy if the event's
  -- side is that of buyers, and else to sell.
  abbrev pub described : OrderPlacedEvent → Order
  described event = record {
    id = event.order_id;
    user_id = event.user_id;
    side = if event.side == side_buy then side_buy else side_sell;
    type = type_limit;
    price = event.price;
    quantity = event.quantity;
  }

  describes :
      (event : OrderPlacedEvent)
      → event.type ≡ type_limit
      → convert_to_matching_order event ≡ described event
  unfolding convert_to_matching_order
  describes event limit = rw limit refl

  -- A limit order with a quantity above zero whose results need no settlement has been added to the
  -- book of its engine, with the event's ID, user, side and price and its whole quantity, and that is
  -- all that has changed there.
  pub handle_order_placed-rests :
      (event : OrderPlacedEvent) (s : Subscriber) (p : Processed)
      → process
          (s.env.outside s.calls)
          (get_engine event.symbol s.engine_manager).0
          (convert_to_matching_order event)
        ≡ some p
      → pos 0 <ℤ value event.quantity
      → event.type ≡ type_limit
      → needs_settlement event p ≡ false
      → p.book ≡ add_order (get_engine event.symbol s.engine_manager).0 (described event)
  unfolding convert_to_matching_order
  handle_order_placed-rests event s p processed q limit unneeded =
      let e = (get_engine event.symbol s.engine_manager).0 in
      let (p', processed', runs) =
        process-Runs (s.env.outside s.calls) e (convert_to_matching_order event) in
      let same = process_same _ p' p processed' processed in
      let facts =
        unneeded-facts (length p.trades) (event.type == type_market) (is_zero p.order.quantity)
          unneeded in
      ap (λ (x : Processed). x.book) (sym same)
      ∙ process-rests (s.env.outside s.calls) e (convert_to_matching_order event) p' runs
          (convert-HasQuantity event q) (rw limit refl)
          (ap (λ (x : Processed). length x.trades) same ∙ facts.0)
          (ap (λ (x : Processed). is_zero x.order.quantity) same ∙ facts.1)
      ∙ ap (add_order e) (describes event limit)
    where
      unneeded-facts :
          (n : ℕ) (market zero : Bool)
          → (ltb 0 n || (market || zero)) ≡ false
          → (n ≡ 0) × (zero ≡ false)
      unneeded-facts n market zero h = ground arith
