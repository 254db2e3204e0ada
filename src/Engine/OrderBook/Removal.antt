-- ===== src/Engine/OrderBook/Removal.antt =====
-- `RemoveOrder`: what a cancellation cuts out of the book.
use cyptocurrency_exchange_b.Prelude.{
  ◌≡◌, refl, ◌≢◌, ap, sym, subst, inl, inr, Bool, true, false, not, List, [], ◌∷◌, ◌++◌, All,
  Bool-cases, ◌==◌, if◌then◌else◌, arith,
}
use cyptocurrency_exchange_b.Prelude.Order.{Sorted, Sorted-delete}
use cyptocurrency_exchange_b.Decimal.{DecimalLib}
use cyptocurrency_exchange_b.Engine.Types.{Uuid, OrderSide, Order, side_buy}
use cyptocurrency_exchange_b.Engine.OrderBook.{OrderBook, remove_id, remove_order}
use cyptocurrency_exchange_b.Engine.OrderBook.Sorted.{BidOrder, AskOrder, IsSorted, side_of}

module _ ⦃lib : DecimalLib⦄ where
  -- `new` is `old` without the first order that has the ID.
  pub record Cuts (order_id : Uuid) (old new : List Order) : Type 0 where
    pub before : List Order
    pub order : Order
    pub after : List Order
    pub split : old ≡ before ++ order ∷ after
    pub cut : new ≡ before ++ after
    pub hit : order.id ≡ order_id
    pub missed : All (λ o. o.id ≢ order_id) before

  -- What the scan of one side answers: it cut the order out, or there was none and nothing changed.
  abbrev pub Removes : Uuid → List Order → List Order → Bool → Type 0
  Removes order_id old new true = Cuts order_id old new
  Removes order_id old new false = (new ≡ old) × All (λ o. o.id ≢ order_id) old

  later :
      (order_id : Uuid) (o : Order) (old new : List Order) (found : Bool)
      → o.id ≢ order_id
      → Removes order_id old new found
      → Removes order_id (o ∷ old) (o ∷ new) found
  later order_id o old new true ne c = record {
    before = o ∷ c.before;
    order = c.order;
    after = c.after;
    split = ap (◌∷◌ o) c.split;
    cut = ap (◌∷◌ o) c.cut;
    hit = c.hit;
    missed = (ne, c.missed);
  }
  later order_id o old new false ne (same, none_there) = (ap (◌∷◌ o) same, (ne, none_there))

  remove_id-Removes :
      (order_id : Uuid) (os : List Order)
      → Removes order_id os (remove_id order_id os).0 (remove_id order_id os).1
  unfolding remove_id
  remove_id-Removes order_id [] = (refl, tt)
  remove_id-Removes order_id (o ∷ os) = elim (Bool-cases (o.id == order_id)) [
    | inl hit ↦
        rw (hit, remove_id)
          (record {
            before = [];
            order = o;
            after = os;
            split = refl;
            cut = refl;
            hit = ground arith;
            missed = tt;
          })
    | inr miss ↦
        rw (miss, remove_id)
          (later order_id o os _ _ (ground arith) (remove_id-Removes order_id os))
  ]

  remove_from : (buy : Bool) (ob : OrderBook) (order_id : Uuid) → OrderBook × Bool
  remove_from buy ob order_id =
      if buy
      then (let (bids, found) = remove_id order_id ob.bids in (record ob { bids = bids }, found))
      else (let (asks, found) = remove_id order_id ob.asks in (record ob { asks = asks }, found))

  remove_from-Removes :
      (buy : Bool) (ob : OrderBook) (order_id : Uuid)
      → let (ob', found) = remove_from buy ob order_id in
        Removes order_id (side_of buy ob) (side_of buy ob') found
        × (side_of (not buy) ob' ≡ side_of (not buy) ob)
  unfolding remove_from
  remove_from-Removes true ob order_id = (remove_id-Removes order_id ob.bids, refl)
  remove_from-Removes false ob order_id = (remove_id-Removes order_id ob.asks, refl)

  -- `RemoveOrder` answers true exactly when the named side holds the ID, and then cuts out the first
  -- order with it; it answers false when no order there has the ID, and then changes nothing. The
  -- other side is never touched.
  pub remove_order-exact :
      (ob : OrderBook) (order_id : Uuid) (side : OrderSide)
      → let buy = side == side_buy in
        let (ob', found) = remove_order ob order_id side in
        Removes order_id (side_of buy ob) (side_of buy ob') found
        × (side_of (not buy) ob' ≡ side_of (not buy) ob)
  unfolding remove_order remove_from
  remove_order-exact ob order_id side = remove_from-Removes (side == side_buy) ob order_id

  Removes-Sorted :
      (R : Order → Order → Type 0) (order_id : Uuid) (old new : List Order) (found : Bool)
      → Removes order_id old new found
      → Sorted R old
      → Sorted R new
  Removes-Sorted R order_id old new true c s =
      subst (Sorted R) (sym c.cut)
        (Sorted-delete R c.order c.before c.after (subst (Sorted R) c.split s))
  Removes-Sorted R order_id old new false (same, _) s = subst (Sorted R) (sym same) s

  remove_from-IsSorted :
      (buy : Bool) (ob : OrderBook) (order_id : Uuid)
      → IsSorted ob
      → IsSorted (remove_from buy ob order_id).0
  unfolding remove_from
  remove_from-IsSorted true ob order_id s = record {
    bids = Removes-Sorted BidOrder order_id ob.bids _ _ (remove_id-Removes order_id ob.bids) s.bids;
    asks = s.asks;
  }
  remove_from-IsSorted false ob order_id s = record {
    bids = s.bids;
    asks = Removes-Sorted AskOrder order_id ob.asks _ _ (remove_id-Removes order_id ob.asks) s.asks;
  }

  pub remove_order-IsSorted :
      (ob : OrderBook) (order_id : Uuid) (side : OrderSide)
      → IsSorted ob
      → IsSorted (remove_order ob order_id side).0
  unfolding remove_order remove_from
  remove_order-IsSorted ob order_id side s = remove_from-IsSorted (side == side_buy) ob order_id s
