-- ===== src/Engine/Matching/Valid.antt =====
-- The invariant of an engine: both sides in price order, every waiting quantity above zero, and the
-- book not crossed. `Process` keeps it.
use cyptocurrency_exchange_b.Prelude.{
  ◌≡◌, ◌⊎◌, inl, inr, ap, sym, subst, Bool, true, false, not, ◌&&◌, some, List, [], ◌∷◌, All,
  Bool-cases, ◌==◌, arith,
}
use cyptocurrency_exchange_b.Prelude.Int.{◌<ℤ◌}
use cyptocurrency_exchange_b.Prelude.Order.{Sorted, All-map, All-insert}
use cyptocurrency_exchange_b.Decimal.{DecimalLib, value, less_than, greater_than, is_positive}
use cyptocurrency_exchange_b.Decimal.Laws.{less_than→lt, greater_than→lt, is_positive→lt}
use cyptocurrency_exchange_b.Engine.Types.{Order, type_market}
use cyptocurrency_exchange_b.Engine.OrderBook.{OrderBook, add_order}
use cyptocurrency_exchange_b.Engine.OrderBook.Sorted.{
  BidOrder, AskOrder, SideOrder, IsSorted, side_of, is_buy, Joins, add_to, add_order-Joins,
  add_to-IsSorted,
}
use cyptocurrency_exchange_b.Engine.Matching.{Outside, Matched, Processed, process, rest_order}
use cyptocurrency_exchange_b.Engine.Matching.Run.{Run, outside_limit}
use cyptocurrency_exchange_b.Engine.Matching.Keeps.{
  HasQuantity, Run-All, Run-Sorted, Run-HasQuantity, Run-taker, Run-stops,
}
use cyptocurrency_exchange_b.Engine.Matching.Process.{misses_of, with_side, process-Runs}

module _ ⦃lib : DecimalLib⦄ where
  -- Every bid is below every ask.
  abbrev pub Apart : List Order → List Order → Type 0
  Apart bids asks = All (λ b. All (λ a. value b.price <ℤ value a.price) asks) bids

  pub record IsValid (ob : OrderBook) : Type 0 where
    pub sorted : IsSorted ob
    pub bids : All HasQuantity ob.bids
    pub asks : All HasQuantity ob.asks
    pub apart : Apart ob.bids ob.asks

  -- The order may join its side without crossing the book.
  abbrev pub Fits : Bool → OrderBook → Order → Type 0
  Fits true ob o = All (λ a. value o.price <ℤ value a.price) ob.asks
  Fits false ob o = All (λ b. value b.price <ℤ value o.price) ob.bids

  All-zip :
      (P Q R : Order → Type 0) (os : List Order)
      → ((o : Order) → P o → Q o → R o)
      → All P os
      → All Q os
      → All R os
  All-zip P Q R [] f h k = tt
  All-zip P Q R (o ∷ os) f h k = (f o h.0 k.0, All-zip P Q R os f h.1 k.1)

  Joins-All :
      (P : Order → Type 0) (buy : Bool) (order : Order) (old new : List Order)
      → Joins buy order old new
      → P order
      → All P old
      → All P new
  Joins-All P buy order old new j p h =
      subst (All P) (sym j.joined) (All-insert P order j.before j.after p (subst (All P) j.split h))

  add_to-IsValid :
      (buy : Bool) (ob : OrderBook) (o : Order)
      → IsValid ob
      → HasQuantity o
      → Fits buy ob o
      → IsValid (add_to buy ob o)
  add_to-IsValid true ob o v q f =
      let j = (add_order-Joins true ob o v.sorted).0 in
      record {
        sorted = add_to-IsSorted true ob o v.sorted;
        bids = Joins-All HasQuantity true o _ _ j q v.bids;
        asks = v.asks;
        apart =
            Joins-All (λ b. All (λ a. value b.price <ℤ value a.price) ob.asks) true o _ _ j f
              v.apart;
      }
  add_to-IsValid false ob o v q f =
      let j = (add_order-Joins false ob o v.sorted).0 in
      record {
        sorted = add_to-IsSorted false ob o v.sorted;
        bids = v.bids;
        asks = Joins-All HasQuantity false o _ _ j q v.asks;
        apart =
            All-zip _ _ _ ob.bids
              (λ b h k. Joins-All (λ a. value b.price <ℤ value a.price) false o _ _ j k h) v.apart
              f;
      }

  -- A book that a loop left, with the makers that it did not use up.
  matched-IsValid :
      (buy : Bool) (out : Outside) (ob : OrderBook) (order : Order) (m : Matched)
      → Run (misses_of buy) out ob.symbol 0 (side_of (not buy) ob) order [] m
      → HasQuantity order
      → IsValid ob
      → IsValid (with_side (not buy) ob m.makers)
  matched-IsValid true out ob order m r q v = record {
    sorted = record {
      bids = v.sorted.bids;
      asks = Run-Sorted less_than out ob.symbol AskOrder (λ o k y h. h) r v.sorted.asks;
    };
    bids = v.bids;
    asks = (Run-HasQuantity less_than out ob.symbol r q v.asks).0;
    apart =
        All-map _ _ ob.bids
          (λ b h.
            Run-All less_than out ob.symbol (λ a. value b.price <ℤ value a.price) (λ o k h. h) r h)
          v.apart;
  }
  matched-IsValid false out ob order m r q v = record {
    sorted = record {
      bids = Run-Sorted greater_than out ob.symbol BidOrder (λ o k y h. h) r v.sorted.bids;
      asks = v.sorted.asks;
    };
    bids = (Run-HasQuantity greater_than out ob.symbol r q v.bids).0;
    asks = v.asks;
    apart =
        Run-All greater_than out ob.symbol (λ b. All (λ a. value b.price <ℤ value a.price) ob.asks)
          (λ o k h. h) r v.apart;
  }

  missed→true : (t : Bool) (b : Bool) → (not t && b) ≡ true → b ≡ true
  missed→true true b h = ground arith
  missed→true false b h = h

  -- A taker that stopped with quantity left does not cross the makers that remain.
  stopped-Fits :
      (buy : Bool) (ob : OrderBook) (order : Order) (m : Matched)
      → m.taker ≡ record order { quantity = m.taker.quantity }
      → Sorted (SideOrder (not buy)) m.makers
      → (m.makers ≡ [])
        ⊎ ((o : Order) × (os : List Order) × (m.makers ≡ o ∷ os)
            × (outside_limit (misses_of buy) order o ≡ true))
      → Fits buy (with_side (not buy) ob m.makers) m.taker
  stopped-Fits true ob order m same s (inl none_left) =
      subst (λ os. All (λ a. value m.taker.price <ℤ value a.price) os) (sym none_left) tt
  stopped-Fits true ob order m same s (inr (o, os, e, out_of_limit)) =
      let lt = less_than→lt order.price o.price (missed→true _ _ out_of_limit) in
      subst (λ os. All (λ a. value m.taker.price <ℤ value a.price) os) (sym e)
        (subst (λ t. All (λ a. value t.price <ℤ value a.price) (o ∷ os)) (sym same)
          (lt, All-map (AskOrder o) _ os (λ y h. omega arith) (subst (Sorted AskOrder) e s).0))
  stopped-Fits false ob order m same s (inl none_left) =
      subst (λ os. All (λ b. value b.price <ℤ value m.taker.price) os) (sym none_left) tt
  stopped-Fits false ob order m same s (inr (o, os, e, out_of_limit)) =
      let lt = greater_than→lt order.price o.price (missed→true _ _ out_of_limit) in
      subst (λ os. All (λ b. value b.price <ℤ value m.taker.price) os) (sym e)
        (subst (λ t. All (λ b. value b.price <ℤ value t.price) (o ∷ os)) (sym same)
          (lt, All-map (BidOrder o) _ os (λ y h. omega arith) (subst (Sorted BidOrder) e s).0))

  rest_order-IsValid :
      (ob : OrderBook) (o : Order)
      → IsValid ob
      → (HasQuantity o → Fits (is_buy o) ob o)
      → IsValid (rest_order ob o)
  unfolding rest_order add_order
  rest_order-IsValid ob o v fits = elim (Bool-cases (is_positive o.quantity)) [
    | inl more ↦ elim (Bool-cases (o.type == type_market)) [
      | inl market ↦ rw (more, market, rest_order) v
      | inr limit ↦
          let q = is_positive→lt o.quantity more in
          rw (more, limit, rest_order) (add_to-IsValid (is_buy o) ob o v q (fits q))
    ]
    | inr nothing ↦ rw (nothing, rest_order) v
  ]

  makers-Sorted :
      (buy : Bool) (ob : OrderBook) (os : List Order)
      → IsValid (with_side (not buy) ob os)
      → Sorted (SideOrder (not buy)) os
  makers-Sorted true ob os v = v.sorted.asks
  makers-Sorted false ob os v = v.sorted.bids

  -- From a valid book and an order with a quantity above zero, `Process` returns, and leaves a valid
  -- book: in price order, with quantities above zero, and not crossed.
  pub process-IsValid :
      (out : Outside) (ob : OrderBook) (order : Order)
      → IsValid ob
      → HasQuantity order
      → (p : Processed) × (process out ob order ≡ some p) × IsValid p.book
  process-IsValid out ob order v q =
      let (p, e, r) = process-Runs out ob order in
      let buy = is_buy order in
      let matched = matched-IsValid buy out ob order r.m r.run q v in
      let same = Run-taker _ out ob.symbol r.run in
      (
        p,
        e,
        subst IsValid (sym r.book) (
            rest_order-IsValid _ r.m.taker matched (λ left.
              subst (λ b. Fits b (with_side (not buy) ob r.m.makers) r.m.taker)
                (ap is_buy (sym same))
                (stopped-Fits buy ob order r.m same (makers-Sorted buy ob r.m.makers matched)
                  (Run-stops _ out ob.symbol r.run left)))),
      )
