-- ===== src/Engine/OrderBook/Sorted.antt =====
-- Price-time priority of the two sides of the book, under `AddOrder` and `RemoveOrder`.
use cyptocurrency_exchange_b.Prelude.{
  ◌≡◌, refl, sym, subst, ◌∙◌, Bool, true, false, not, List, [], ◌∷◌, ◌++◌, All, ◌==◌, if◌then◌else◌,
  arith,
}
use cyptocurrency_exchange_b.Prelude.Int.{◌≤ℤ◌, ◌<ℤ◌}
use cyptocurrency_exchange_b.Prelude.Order.{Sorted, Sorted-insert, All-map}
use cyptocurrency_exchange_b.Decimal.{DecimalLib, value}
use cyptocurrency_exchange_b.Decimal.Laws.{
  less_than→lt, less_than→ge, lt→less_than, ge→less_than, greater_than→lt, greater_than→ge,
  lt→greater_than, ge→greater_than,
}
use cyptocurrency_exchange_b.Engine.Types.{Order, side_buy}
use cyptocurrency_exchange_b.Engine.OrderBook.{
  OrderBook, insert_stable, slice_stable, bid_less, ask_less, add_order,
}
use cyptocurrency_exchange_b.Engine.OrderBook.Sort.{Placed, slice_stable-Placed}

module _ ⦃lib : DecimalLib⦄ where
  abbrev pub BidOrder : Order → Order → Type 0
  BidOrder x y = value y.price ≤ℤ value x.price

  abbrev pub AskOrder : Order → Order → Type 0
  AskOrder x y = value x.price ≤ℤ value y.price

  abbrev pub SideOrder : Bool → Order → Order → Type 0
  SideOrder true = BidOrder
  SideOrder false = AskOrder

  -- Bids fall in price and asks rise.
  pub record IsSorted (ob : OrderBook) : Type 0 where
    pub bids : Sorted BidOrder ob.bids
    pub asks : Sorted AskOrder ob.asks

  abbrev pub is_buy : Order → Bool
  is_buy order = order.side == side_buy

  -- The side of the book that buy orders wait on, and that sell orders do.
  abbrev pub side_of : Bool → OrderBook → List Order
  side_of true ob = ob.bids
  side_of false ob = ob.asks

  -- `y` has the same price as `order`, or a better one, as far as buyers or sellers see it.
  abbrev pub IsAhead : Bool → Order → Order → Type 0
  IsAhead true order y = BidOrder y order
  IsAhead false order y = AskOrder y order

  -- `y` has a strictly worse price than `order`.
  abbrev pub IsBehind : Bool → Order → Order → Type 0
  IsBehind true order y = value y.price <ℤ value order.price
  IsBehind false order y = value order.price <ℤ value y.price

  -- `new` is `old` with `order` put in: behind every order of its price or a better one, and before
  -- every order of a worse one; the others keep their places.
  pub record Joins (buy : Bool) (order : Order) (old new : List Order) : Type 0 where
    pub before : List Order
    pub after : List Order
    pub split : old ≡ before ++ after
    pub joined : new ≡ before ++ order ∷ after
    pub ahead : All (IsAhead buy order) before
    pub behind : All (IsBehind buy order) after

  abbrev pub add_to : Bool → OrderBook → Order → OrderBook
  add_to buy ob order =
      if buy
      then record ob { bids = slice_stable bid_less (ob.bids ++ order ∷ []) }
      else record ob { asks = slice_stable ask_less (ob.asks ++ order ∷ []) }

  bids-Placed :
      (order : Order) (os : List Order)
      → Sorted BidOrder os
      → (slice_stable bid_less (os ++ order ∷ []) ≡ insert_stable bid_less order os)
        × Placed bid_less BidOrder order os
  bids-Placed =
      slice_stable-Placed bid_less BidOrder
        (λ a x y lt r.
          lt→greater_than a.price y.price
            (let h = greater_than→lt a.price x.price lt in omega arith))
        (λ a b h. greater_than→ge a.price b.price h) (λ a b r. ge→greater_than a.price b.price r)

  asks-Placed :
      (order : Order) (os : List Order)
      → Sorted AskOrder os
      → (slice_stable ask_less (os ++ order ∷ []) ≡ insert_stable ask_less order os)
        × Placed ask_less AskOrder order os
  asks-Placed =
      slice_stable-Placed ask_less AskOrder
        (λ a x y lt r.
          lt→less_than a.price y.price (let h = less_than→lt a.price x.price lt in omega arith))
        (λ a b h. less_than→ge a.price b.price h) (λ a b r. ge→less_than a.price b.price r)

  pub add_order-Joins :
      (buy : Bool) (ob : OrderBook) (order : Order)
      → IsSorted ob
      → let ob' = add_to buy ob order in
        Joins buy order (side_of buy ob) (side_of buy ob')
        × (side_of (not buy) ob' ≡ side_of (not buy) ob)
  add_order-Joins true ob order s =
      let (sorts, p) = bids-Placed order ob.bids s.bids in
      (
        record {
          before = p.before;
          after = p.after;
          split = p.split;
          joined = sorts ∙ p.placed;
          ahead = p.not_worse;
          behind = All-map _ _ p.after (λ y. greater_than→lt order.price y.price) p.worse;
        },
        refl,
      )
  add_order-Joins false ob order s =
      let (sorts, p) = asks-Placed order ob.asks s.asks in
      (
        record {
          before = p.before;
          after = p.after;
          split = p.split;
          joined = sorts ∙ p.placed;
          ahead = p.not_worse;
          behind = All-map _ _ p.after (λ y. less_than→lt order.price y.price) p.worse;
        },
        refl,
      )

  -- In a sorted book an order joins its own side behind every order of the same or a better price
  -- and before every order of a worse one; nothing else moves, on either side.
  pub add_order-priority :
      (ob : OrderBook) (order : Order)
      → IsSorted ob
      → let buy = is_buy order in
        let ob' = add_order ob order in
        Joins buy order (side_of buy ob) (side_of buy ob')
        × (side_of (not buy) ob' ≡ side_of (not buy) ob)
  unfolding add_order
  add_order-priority ob order s = add_order-Joins (is_buy order) ob order s

  Joins-Sorted :
      (buy : Bool) (order : Order) (old new : List Order)
      → Joins buy order old new
      → Sorted (SideOrder buy) old
      → Sorted (SideOrder buy) new
  Joins-Sorted true order old new j s = subst (Sorted BidOrder) (sym j.joined) (
      Sorted-insert BidOrder order j.before j.after (subst (Sorted BidOrder) j.split s) j.ahead
        (All-map _ _ j.after (λ y h. omega arith) j.behind))
  Joins-Sorted false order old new j s = subst (Sorted AskOrder) (sym j.joined) (
      Sorted-insert AskOrder order j.before j.after (subst (Sorted AskOrder) j.split s) j.ahead
        (All-map _ _ j.after (λ y h. omega arith) j.behind))

  pub add_to-IsSorted :
      (buy : Bool) (ob : OrderBook) (order : Order) → IsSorted ob → IsSorted (add_to buy ob order)
  add_to-IsSorted true ob order s = record {
    bids = Joins-Sorted true order _ _ (add_order-Joins true ob order s).0 s.bids;
    asks = s.asks;
  }
  add_to-IsSorted false ob order s = record {
    bids = s.bids;
    asks = Joins-Sorted false order _ _ (add_order-Joins false ob order s).0 s.asks;
  }

  pub add_order-IsSorted :
      (ob : OrderBook) (order : Order) → IsSorted ob → IsSorted (add_order ob order)
  unfolding add_order
  add_order-IsSorted ob order s = add_to-IsSorted (is_buy order) ob order s
