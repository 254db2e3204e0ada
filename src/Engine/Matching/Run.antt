-- ===== src/Engine/Matching/Run.antt =====
-- The rounds of a matching loop as a relation, and that the loop always ends by one of its exits.
use cyptocurrency_exchange_b.Prelude.{
  ℕ, suc, zero, ◌<◌, String, ◌≡◌, refl, ◌≢◌, inl, inr, Bool, true, false, not, ◌&&◌, some, List, [],
  ◌∷◌, ◌++◌, length, Bool-cases, ◌==◌, arith,
}
use cyptocurrency_exchange_b.Decimal.{DecimalLib, Decimal, zero_dec, sub, less_than, is_zero}
use cyptocurrency_exchange_b.Decimal.Laws.{sub_parts, less_than→lt, is_zero→eq, eq→is_zero}
use cyptocurrency_exchange_b.Engine.Types.{Order, Trade, type_market}
use cyptocurrency_exchange_b.Engine.Matching.{Outside, Matched, make_trade, after_fill, match_loop}

module _ ⦃lib : DecimalLib⦄ where
  pub sub_self : (a : Decimal) → is_zero (sub a a) ≡ true
  sub_self a = eq→is_zero (sub a a) (omega (arith, sub_parts a a))

  pub sub_more : (a b : Decimal) → less_than b a ≡ true → is_zero (sub a b) ≡ false
  sub_more a b lt = elim (Bool-cases (is_zero (sub a b))) [
    | inl z ↦ absurd (omega (arith, sub_parts a b, less_than→lt b a lt, is_zero→eq (sub a b) z))
    | inr nz ↦ nz
  ]

module _ ⦃lib : DecimalLib⦄ (misses : Decimal → Decimal → Bool) where
  -- The price of `best` is outside the limit of `taker`.
  abbrev pub outside_limit : Order → Order → Bool
  outside_limit taker best = not (taker.type == type_market) && misses taker.price best.price

module _ ⦃lib : DecimalLib⦄ (misses : Decimal → Decimal → Bool) (out : Outside)
    (symbol : String) where
  pub data Run : ℕ → List Order → Order → List Trade → Matched → Type 0 where
    no_maker :
        (n : ℕ) (taker : Order) (trades : List Trade)
        → Run n [] taker trades (record { makers = []; taker = taker; trades = trades })
    own_order :
        (n : ℕ) (best : Order) (rest : List Order) (taker : Order) (trades : List Trade)
        → taker.user_id ≡ best.user_id
        → Run n (best ∷ rest) taker trades (record {
          makers = best ∷ rest;
          taker = record taker { quantity = zero_dec };
          trades = trades;
        })
    price_missed :
        (n : ℕ) (best : Order) (rest : List Order) (taker : Order) (trades : List Trade)
        → taker.user_id ≢ best.user_id
        → outside_limit misses taker best ≡ true
        → Run n
            (best ∷ rest)
            taker
            trades
            (record { makers = best ∷ rest; taker = taker; trades = trades })
    filled :
        (n : ℕ) (best : Order) (rest : List Order) (taker : Order) (trades : List Trade)
        → taker.user_id ≢ best.user_id
        → outside_limit misses taker best ≡ false
        → less_than best.quantity taker.quantity ≡ false
        → Run n (best ∷ rest) taker trades (record {
          makers = after_fill best taker.quantity rest;
          taker = record taker { quantity = sub taker.quantity taker.quantity };
          trades = trades ++ make_trade out symbol n best taker taker.quantity ∷ [];
        })
    eaten :
        (n : ℕ) (best : Order) (rest : List Order) (taker : Order) (trades : List Trade)
        (m : Matched)
        → taker.user_id ≢ best.user_id
        → outside_limit misses taker best ≡ false
        → less_than best.quantity taker.quantity ≡ true
        → Run
            (suc n)
            rest
            (record taker { quantity = sub taker.quantity best.quantity })
            (trades ++ make_trade out symbol n best taker best.quantity ∷ [])
            m
        → Run n (best ∷ rest) taker trades m

  -- With one round more than there are makers, the loop ends, and by one of its exits.
  pub match_loop-Run :
      (fuel n : ℕ) (makers : List Order) (taker : Order) (trades : List Trade)
      → length makers < fuel
      → (m : Matched) × (match_loop misses out symbol fuel n makers taker trades ≡ some m)
        × Run n makers taker trades m
  unfolding match_loop
  match_loop-Run zero n makers taker trades h = elim h [ ]
  match_loop-Run (suc fuel) n [] taker trades h = (_, refl, no_maker n taker trades)
  match_loop-Run (suc fuel) n (best ∷ rest) taker trades h =
      elim (Bool-cases (taker.user_id == best.user_id)) [
        | inl own ↦ (_, rw (own, match_loop), own_order n best rest taker trades (ground arith))
        | inr other ↦ elim (Bool-cases (outside_limit misses taker best)) [
          | inl missed ↦ (
            _,
            rw (other, missed, match_loop),
            price_missed n best rest taker trades (ground arith) missed,
          )
          | inr hit ↦ elim (Bool-cases (less_than best.quantity taker.quantity)) [
            | inl more ↦
                let (m, e, r) = match_loop-Run fuel (suc n) rest _ _ (omega arith) in
                (
                  m,
                  rw
                      (
                        other,
                        hit,
                        more,
                        sub_self best.quantity,
                        sub_more taker.quantity best.quantity more,
                        match_loop,
                      )
                      e,
                  eaten n best rest taker trades m (ground arith) hit more r,
                )
            | inr all ↦ (
              _,
              rw (other, hit, all, sub_self taker.quantity, match_loop),
              filled n best rest taker trades (ground arith) hit all,
            )
          ]
        ]
      ]
