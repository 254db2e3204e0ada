-- ===== src/Engine/Matching/Priority.antt =====
-- Which makers a matching loop trades with, in which order and at which prices.
use mathlib.Core.List.{append-nil, append_assoc}
use cyptocurrency_exchange_b.Prelude.{
  ℕ, String, ◌≡◌, refl, ◌≢◌, ◌⊎◌, ap, ◌∙◌, inl, inr, Bool, false, List, [], ◌∷◌, ◌++◌, map,
  Bool-cases, All,
}
use cyptocurrency_exchange_b.Decimal.{DecimalLib, Decimal, sub, is_zero}
use cyptocurrency_exchange_b.Engine.Types.{Uuid, Order, Trade}
use cyptocurrency_exchange_b.Engine.Matching.{Outside, Matched, make_trade, after_fill}
use cyptocurrency_exchange_b.Engine.Matching.Run.{
  Run, outside_limit, no_maker, own_order, price_missed, filled, eaten,
}

module _ ⦃lib : DecimalLib⦄ where
  -- The order that a trade names as its maker, and its price.
  abbrev pub trade_key : Trade → Uuid × Decimal
  trade_key t = (t.maker_order_id, t.price)

  abbrev pub order_key : Order → Uuid × Decimal
  order_key o = (o.id, o.price)

  -- `o` with another quantity, in front of `untouched`, where `o` is the last of `touched`.
  pub record PartlyFilled (touched untouched makers : List Order) : Type 0 where
    pub full : List Order
    pub partial : Order
    pub left : Decimal
    pub last_touched : touched ≡ full ++ partial ∷ []
    pub remains : makers ≡ record partial { quantity = left } ∷ untouched

  after_fill-remains :
      (best : Order) (q : Decimal) (rest : List Order)
      → (after_fill best q rest ≡ rest) ⊎ PartlyFilled (best ∷ []) rest (after_fill best q rest)
  after_fill-remains best q rest = elim (Bool-cases (is_zero (sub best.quantity q))) [
    | inl gone ↦ inl (rw gone)
    | inr stays ↦ inr (record {
      full = [];
      partial = best;
      left = sub best.quantity q;
      last_touched = refl;
      remains = rw stays;
    })
  ]

  behind_eaten :
      (best : Order) {touched untouched makers : List Order}
      → (makers ≡ untouched) ⊎ PartlyFilled touched untouched makers
      → (makers ≡ untouched) ⊎ PartlyFilled (best ∷ touched) untouched makers
  behind_eaten best (inl e) = inl e
  behind_eaten best (inr p) = inr (record {
    full = best ∷ p.full;
    partial = p.partial;
    left = p.left;
    last_touched = ap (◌∷◌ best) p.last_touched;
    remains = p.remains;
  })

module _ ⦃lib : DecimalLib⦄ (misses : Decimal → Decimal → Bool) where
  -- A loop trades once with each maker of a front part of the side, in the side's order and at the
  -- makers' prices; none of them is the taker's own order or outside its limit. Of that front part
  -- at most the last maker stays, with another quantity, and the rest of the side is as it was.
  pub record Walks (makers : List Order) (taker : Order) (trades : List Trade) (m : Matched)
      : Type 0 where
    pub touched : List Order
    pub untouched : List Order
    pub split : makers ≡ touched ++ untouched
    pub new_trades : List Trade
    pub appended : m.trades ≡ trades ++ new_trades
    pub keys : map trade_key new_trades ≡ map order_key touched
    pub takers : All (λ t. t.taker_order_id ≡ taker.id) new_trades
    pub others : All (λ o. taker.user_id ≢ o.user_id) touched
    pub within : All (λ o. outside_limit misses taker o ≡ false) touched
    pub left_over : (m.makers ≡ untouched) ⊎ PartlyFilled touched untouched m.makers

  stays :
      (makers : List Order) (taker : Order) (trades : List Trade) (m : Matched)
      → m.makers ≡ makers
      → m.trades ≡ trades
      → Walks makers taker trades m
  stays makers taker trades m same none_new = record {
    touched = [];
    untouched = makers;
    split = refl;
    new_trades = [];
    appended = rw append-nil none_new;
    keys = refl;
    takers = tt;
    others = tt;
    within = tt;
    left_over = inl same;
  }

  module _ (out : Outside) (symbol : String) where
    pub Run-Walks :
        {n : ℕ} {makers : List Order} {taker : Order} {trades : List Trade} {m : Matched}
        → Run misses out symbol n makers taker trades m
        → Walks makers taker trades m
    Run-Walks (no_maker n taker trades) = stays [] taker trades _ refl refl
    Run-Walks (own_order n best rest taker trades own) =
        stays (best ∷ rest) taker trades _ refl refl
    Run-Walks (price_missed n best rest taker trades other missed) =
        stays (best ∷ rest) taker trades _ refl refl
    Run-Walks (filled n best rest taker trades other hit all) = record {
      touched = best ∷ [];
      untouched = rest;
      split = refl;
      new_trades = make_trade out symbol n best taker taker.quantity ∷ [];
      appended = refl;
      keys = refl;
      takers = (refl, tt);
      others = (other, tt);
      within = (hit, tt);
      left_over = after_fill-remains best taker.quantity rest;
    }
    Run-Walks (eaten n best rest taker trades m other hit more r) =
        let t = make_trade out symbol n best taker best.quantity in
        let w = Run-Walks r in
        record {
          touched = best ∷ w.touched;
          untouched = w.untouched;
          split = ap (◌∷◌ best) w.split;
          new_trades = t ∷ w.new_trades;
          appended = w.appended ∙ append_assoc trades (t ∷ []) w.new_trades;
          keys = ap (◌∷◌ (best.id, best.price)) w.keys;
          takers = (refl, w.takers);
          others = (other, w.others);
          within = (hit, w.within);
          left_over = behind_eaten best w.left_over;
        }
