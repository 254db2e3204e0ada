-- ===== src/Engine/Matching/Cancel.antt =====
-- `Cancel` and `RestoreOrder`: what they do to the book of an engine.
use cyptocurrency_exchange_b.Prelude.{◌≡◌, sym, subst, Bool, true, false, not, List, All, ◌==◌}
use cyptocurrency_exchange_b.Prelude.Order.{All-delete, All-map}
use cyptocurrency_exchange_b.Prelude.Int.{◌<ℤ◌}
use cyptocurrency_exchange_b.Decimal.{DecimalLib, value}
use cyptocurrency_exchange_b.Engine.Types.{Uuid, OrderSide, Order, side_buy}
use cyptocurrency_exchange_b.Engine.OrderBook.Sorted.{
  IsSorted, side_of, is_buy, Joins, add_order-priority, add_order-IsSorted,
}
use cyptocurrency_exchange_b.Engine.OrderBook.Removal.{
  Removes, remove_order-exact, remove_order-IsSorted,
}
use cyptocurrency_exchange_b.Engine.Matching.{Engine, cancel, restore_order}
use cyptocurrency_exchange_b.Engine.Matching.Keeps.{HasQuantity}
use cyptocurrency_exchange_b.Engine.Matching.Valid.{IsValid, Apart}

module _ ⦃lib : DecimalLib⦄ where
  pub cancel-Removes :
      (e : Engine) (order_id : Uuid) (side : OrderSide)
      → let buy = side == side_buy in
        let (e', found) = cancel e order_id side in
        Removes order_id (side_of buy e) (side_of buy e') found
        × (side_of (not buy) e' ≡ side_of (not buy) e)
  unfolding cancel
  cancel-Removes e order_id side = remove_order-exact e order_id side

  pub restore_order-Joins :
      (e : Engine) (order : Order)
      → IsSorted e
      → let buy = is_buy order in
        let e' = restore_order e order in
        Joins buy order (side_of buy e) (side_of buy e')
        × (side_of (not buy) e' ≡ side_of (not buy) e)
  unfolding restore_order
  restore_order-Joins e order s = add_order-priority e order s

  pub restore_order-IsSorted :
      (e : Engine) (order : Order) → IsSorted e → IsSorted (restore_order e order)
  unfolding restore_order
  restore_order-IsSorted e order s = add_order-IsSorted e order s

  Removes-All :
      (P : Order → Type 0) (order_id : Uuid) (old new : List Order) (found : Bool)
      → Removes order_id old new found
      → All P old
      → All P new
  Removes-All P order_id old new true c h =
      subst (All P) (sym c.cut) (All-delete P c.order c.before c.after (subst (All P) c.split h))
  Removes-All P order_id old new false (same, _) h = subst (All P) (sym same) h

  removed-IsValid :
      (buy : Bool) (order_id : Uuid) (e e' : Engine) (found : Bool)
      → Removes order_id (side_of buy e) (side_of buy e') found
      → side_of (not buy) e' ≡ side_of (not buy) e
      → IsSorted e'
      → IsValid e
      → IsValid e'
  removed-IsValid true order_id e e' found cuts same sorted v = record {
    sorted = sorted;
    bids = Removes-All HasQuantity order_id e.bids e'.bids found cuts v.bids;
    asks = subst (All HasQuantity) (sym same) v.asks;
    apart =
        subst (λ asks. Apart e'.bids asks) (sym same)
          (Removes-All (λ b. All (λ a. value b.price <ℤ value a.price) e.asks) order_id e.bids
            e'.bids found cuts v.apart);
  }
  removed-IsValid false order_id e e' found cuts same sorted v = record {
    sorted = sorted;
    bids = subst (All HasQuantity) (sym same) v.bids;
    asks = Removes-All HasQuantity order_id e.asks e'.asks found cuts v.asks;
    apart =
        subst (λ bids. Apart bids e'.asks) (sym same)
          (All-map _ _ e.bids
            (λ b h.
              Removes-All (λ a. value b.price <ℤ value a.price) order_id e.asks e'.asks found cuts
                h)
            v.apart);
  }

  -- A cancellation keeps an engine valid.
  pub cancel-IsValid :
      (e : Engine) (order_id : Uuid) (side : OrderSide)
      → IsValid e
      → IsValid (cancel e order_id side).0
  unfolding cancel
  cancel-IsValid e order_id side v =
      let (cuts, same) = remove_order-exact e order_id side in
      removed-IsValid (side == side_buy) order_id e (cancel e order_id side).0 _ cuts same
        (remove_order-IsSorted e order_id side v.sorted) v
