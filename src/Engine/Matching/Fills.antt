-- ===== src/Engine/Matching/Fills.antt =====
-- Where the quantities go in a matching loop.
use cyptocurrency_exchange_b.Prelude.{
  ℕ, String, ◌≡◌, refl, ◌⊎◌, inl, inr, Bool, List, [], ◌∷◌, ◌++◌, Bool-cases,
}
use cyptocurrency_exchange_b.Prelude.Int.{ℤ, pos, ◌+ℤ◌, parts_of_eq, eq_of_parts}
use cyptocurrency_exchange_b.Decimal.{DecimalLib, Decimal, value, sub, is_zero}
use cyptocurrency_exchange_b.Decimal.Laws.{decimal_sums, is_zero→eq}
use cyptocurrency_exchange_b.Engine.Types.{Order, Trade}
use cyptocurrency_exchange_b.Engine.Matching.{Outside, Matched, make_trade, after_fill}
use cyptocurrency_exchange_b.Engine.Matching.Run.{
  Run, no_maker, own_order, price_missed, filled, eaten,
}

module _ ⦃lib : DecimalLib⦄ where
  -- The quantity that waits in a side of the book.
  abbrev pub waiting : List Order → ℤ
  waiting [] = pos 0
  waiting (o ∷ os) = value o.quantity +ℤ waiting os

  -- The quantity that a list of trades moves.
  abbrev pub traded : List Trade → ℤ
  traded [] = pos 0
  traded (t ∷ ts) = value t.quantity +ℤ traded ts

  pub traded-append : (ts us : List Trade) → traded (ts ++ us) ≡ traded ts +ℤ traded us
  traded-append [] us = omega decimal_sums
  traded-append (t ∷ ts) us =
      eq_of_parts _ _ (omega (decimal_sums, parts_of_eq _ _ (traded-append ts us)))

  pub traded_one :
      (ts : List Trade) (t : Trade) → traded (ts ++ t ∷ []) ≡ traded ts +ℤ value t.quantity
  traded_one ts t =
      eq_of_parts _ _ (omega (decimal_sums, parts_of_eq _ _ (traded-append ts (t ∷ []))))

  after_fill-waiting :
      (best : Order) (q : Decimal) (rest : List Order)
      → waiting (after_fill best q rest) +ℤ value q ≡ waiting (best ∷ rest)
  after_fill-waiting best q rest = elim (Bool-cases (is_zero (sub best.quantity q))) [
    | inl gone ↦ rw gone (eq_of_parts _ _ (omega (decimal_sums, is_zero→eq _ gone)))
    | inr stays ↦ rw stays (eq_of_parts _ _ (omega decimal_sums))
  ]

  -- Self-trade prevention ended the loop: the next maker is the taker's own order, and the rest of
  -- the taker's quantity was dropped.
  pub record Dropped (taker : Order) (m : Matched) : Type 0 where
    pub own : Order
    pub behind : List Order
    pub next_maker : m.makers ≡ own ∷ behind
    pub same_user : taker.user_id ≡ own.user_id
    pub nothing_left : value m.taker.quantity ≡ pos 0

  -- What the trades of a loop moved left the makers, and left the taker.
  pub record Moved (makers : List Order) (taker : Order) (trades : List Trade) (m : Matched)
      : Type 0 where
    pub from_makers : waiting makers +ℤ traded trades ≡ waiting m.makers +ℤ traded m.trades
    pub from_taker :
        (value taker.quantity +ℤ traded trades ≡ value m.taker.quantity +ℤ traded m.trades)
        ⊎ Dropped taker m

module _ ⦃lib : DecimalLib⦄ (misses : Decimal → Decimal → Bool) (out : Outside)
    (symbol : String) where
  pub Run-Moved :
      {n : ℕ} {makers : List Order} {taker : Order} {trades : List Trade} {m : Matched}
      → Run misses out symbol n makers taker trades m
      → Moved makers taker trades m
  Run-Moved (no_maker n taker trades) = record { from_makers = refl; from_taker = inl refl }
  Run-Moved (own_order n best rest taker trades own) = record {
    from_makers = refl;
    from_taker = inr (record {
      own = best;
      behind = rest;
      next_maker = refl;
      same_user = own;
      nothing_left = lib.value-zero;
    });
  }
  Run-Moved (price_missed n best rest taker trades other missed) = record {
    from_makers = refl;
    from_taker = inl refl;
  }
  Run-Moved (filled n best rest taker trades other hit all) =
      let t = make_trade out symbol n best taker taker.quantity in
      record {
        from_makers = eq_of_parts _ _ (
            omega (
              decimal_sums,
              parts_of_eq _ _ (traded_one trades t),
              parts_of_eq _ _ (after_fill-waiting best taker.quantity rest),
            ));
        from_taker =
            inl (eq_of_parts _ _ (omega (decimal_sums, parts_of_eq _ _ (traded_one trades t))));
      }
  Run-Moved (eaten n best rest taker trades m other hit more r) =
      let t = make_trade out symbol n best taker best.quantity in
      let h = Run-Moved r in
      record {
        from_makers = eq_of_parts _ _ (
            omega
              (decimal_sums, parts_of_eq _ _ (traded_one trades t), parts_of_eq _ _ h.from_makers));
        from_taker = elim h.from_taker [
          | inl kept ↦ inl (
              eq_of_parts _ _
                (omega (decimal_sums, parts_of_eq _ _ (traded_one trades t), parts_of_eq _ _ kept)))
          | inr d ↦ inr (record {
            own = d.own;
            behind = d.behind;
            next_maker = d.next_maker;
            same_user = d.same_user;
            nothing_left = d.nothing_left;
          })
        ];
      }
