-- ===== src/Engine/Matching/Outcome.antt =====
-- What one call of `Process` does to the order, to the other side of the book and to its own side.
use cyptocurrency_exchange_b.Prelude.{
  ◌≡◌, refl, ◌⊎◌, inl, inr, ap, sym, subst, ◌∙◌, Bool, true, false, not, ◌&&◌, some, List, [],
  Bool-cases, ◌==◌,
}
use cyptocurrency_exchange_b.Prelude.Int.{◌+ℤ◌, parts_of_eq, eq_of_parts}
use cyptocurrency_exchange_b.Decimal.{DecimalLib, value, is_positive}
use cyptocurrency_exchange_b.Decimal.Laws.{decimal_sums}
use cyptocurrency_exchange_b.Engine.Types.{Order, type_market}
use cyptocurrency_exchange_b.Engine.OrderBook.{OrderBook, add_order}
use cyptocurrency_exchange_b.Engine.OrderBook.Sorted.{side_of, is_buy, add_to}
use cyptocurrency_exchange_b.Engine.Matching.{Outside, Matched, Processed, process, rest_order}
use cyptocurrency_exchange_b.Engine.Matching.Fills.{waiting, traded, Dropped, Moved, Run-Moved}
use cyptocurrency_exchange_b.Engine.Matching.Keeps.{Run-taker}
use cyptocurrency_exchange_b.Engine.Matching.Priority.{Walks, Run-Walks}
use cyptocurrency_exchange_b.Engine.Matching.Process.{misses_of, with_side, Runs, process-Runs}

module _ ⦃lib : DecimalLib⦄ where
  add_to-other :
      (buy : Bool) (ob : OrderBook) (o : Order)
      → side_of (not buy) (add_to buy ob o) ≡ side_of (not buy) ob
  add_to-other true ob o = refl
  add_to-other false ob o = refl

  rest_order-other :
      (ob : OrderBook) (o : Order)
      → side_of (not (is_buy o)) (rest_order ob o) ≡ side_of (not (is_buy o)) ob
  unfolding rest_order add_order
  rest_order-other ob o =
      elim (Bool-cases (is_positive o.quantity && not (o.type == type_market))) [
        | inl rests ↦ rw (rests, rest_order) (add_to-other (is_buy o) ob o)
        | inr dropped ↦ rw (dropped, rest_order)
      ]

  with_side-same :
      (buy : Bool) (ob : OrderBook) (os : List Order) → side_of buy (with_side buy ob os) ≡ os
  with_side-same true ob os = refl
  with_side-same false ob os = refl

  -- The loop's variables as the caller sees them after the call.
  abbrev pub seen : Bool → Processed → Matched
  seen buy p = record { makers = side_of (not buy) p.book; taker = p.order; trades = p.trades }

  makers_after :
      (out : Outside) (ob : OrderBook) (order : Order) (p : Processed)
      → (r : Runs out ob order p (is_buy order)) → r.m ≡ seen (is_buy order) p
  makers_after out ob order p r =
      let buy = is_buy order in
      let own : is_buy r.m.taker ≡ buy = ap is_buy (Run-taker _ out ob.symbol r.run) in
      let same : side_of (not buy) p.book ≡ r.m.makers =
        ap (side_of (not buy)) r.book
        ∙ subst
            (λ b.
              side_of (not b) (rest_order (with_side (not buy) ob r.m.makers) r.m.taker)
              ≡ side_of (not b) (with_side (not buy) ob r.m.makers))
            own (rest_order-other (with_side (not buy) ob r.m.makers) r.m.taker)
        ∙ with_side-same (not buy) ob r.m.makers in
      λ i. record { makers = sym same i; taker = sym r.left i; trades = sym r.trades i }

  -- `Process` returns, and every unit is accounted for: what its trades moved left the other side of
  -- the book, and left the order, unless self-trade prevention dropped the order's rest because the
  -- next maker is the same user's.
  pub process-conserves :
      (out : Outside) (ob : OrderBook) (order : Order)
      → (p : Processed) × (process out ob order ≡ some p)
        × (waiting (side_of (not (is_buy order)) ob)
            ≡ waiting (side_of (not (is_buy order)) p.book) +ℤ traded p.trades)
        × ((value order.quantity ≡ value p.order.quantity +ℤ traded p.trades)
            ⊎ Dropped order (seen (is_buy order) p))
  process-conserves out ob order =
      let (p, e, r) = process-Runs out ob order in
      let h =
        subst (λ m. Moved (side_of (not (is_buy order)) ob) order [] m)
          (makers_after out ob order p r) (Run-Moved _ out ob.symbol r.run) in
      (
        p,
        e,
        eq_of_parts _ _ (omega (decimal_sums, parts_of_eq _ _ h.from_makers)),
        (elim h.from_taker [
          | inl kept ↦ inl (eq_of_parts _ _ (omega (decimal_sums, parts_of_eq _ _ kept)))
          | inr d ↦ inr d
        ]),
      )

  -- `Process` returns, and its trades walk the other side of the book in its order: one trade with
  -- each maker of a front part of it, at that maker's price, none with the user's own orders and none
  -- outside a limit order's price. Of that front part at most the last maker stays, with another
  -- quantity, and every maker behind it is as it was.
  pub process-Walks :
      (out : Outside) (ob : OrderBook) (order : Order)
      → (p : Processed) × (process out ob order ≡ some p)
        × Walks
            (misses_of (is_buy order))
            (side_of (not (is_buy order)) ob)
            order
            []
            (seen (is_buy order) p)
  process-Walks out ob order =
      let (p, e, r) = process-Runs out ob order in
      (
        p,
        e,
        subst (λ m. Walks (misses_of (is_buy order)) (side_of (not (is_buy order)) ob) order [] m)
            (makers_after out ob order p r) (Run-Walks _ out ob.symbol r.run),
      )
