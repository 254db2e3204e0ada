-- ===== src/OrderService/Settlement/Reads.antt =====
-- What the settlement transaction has in hand when it starts to write: the database as it was, and
-- updates that cancel out in every currency and go to accounts that exist.
use mathlib.Core.Option
use cyptocurrency_exchange_b.Prelude.{
  suc, String, ◌≡◌, refl, ◌⊎◌, inl, inr, sym, subst, ◌∙◌, Bool, true, false, Option, none, some,
  List, [], ◌∷◌, ◌++◌, Bool-cases, All, All-append, ◌==◌, if◌then◌else◌,
}
use cyptocurrency_exchange_b.Prelude.Int.{pos, parts_of_eq, eq_of_parts}
use cyptocurrency_exchange_b.Decimal.{DecimalLib}
use cyptocurrency_exchange_b.Decimal.Laws.{decimal_sums}
use cyptocurrency_exchange_b.Engine.Types.{Uuid, Trade, side_buy}
use cyptocurrency_exchange_b.Domain.Models.{Order}
use cyptocurrency_exchange_b.Store.World.{
  Error, no_rows, invalid_symbol, Result, ok, err, World, Action, pure, guard, or_raise, ◌>>=◌,
}
use cyptocurrency_exchange_b.Store.World.After.{After, After-bind, After-weaken, After-statement}
use cyptocurrency_exchange_b.Store.Accounts.Balances.{HasKey}
use cyptocurrency_exchange_b.Store.Orders.{find_order, row_or_none, get_order_for_update}
use cyptocurrency_exchange_b.OrderService.Symbols.{split_symbol}
use cyptocurrency_exchange_b.OrderService.Settlement.{
  put, lock_order, lock_orders, stale_if_missing,
}
use cyptocurrency_exchange_b.OrderService.Updates.{
  AccountUpdate, calculate_trade_settlement, trade_updates,
}
use cyptocurrency_exchange_b.OrderService.Settlement.Net.{net, net-append, trade_updates-net}
use cyptocurrency_exchange_b.OrderService.Settlement.Backed.{
  IsBacked, TradesIn, trade_updates-IsBacked,
}

-- The currency is one of the listed ones.
abbrev pub Among : String → List String → Type 0
Among c [] = ⊥
Among c (x ∷ xs) = (x ≡ c) ⊎ Among c xs

abbrev pub PartsAmong : List String → Option (String × String) → Type 0
PartsAmong cs none = Unit {0}
PartsAmong cs (some (base, quote)) = Among base cs × Among quote cs

Among-All : (P : String → Type 0) (c : String) (cs : List String) → All P cs → Among c cs → P c
Among-All P c [] h among = absurd among
Among-All P c (x ∷ xs) h (inl here) = subst P here h.0
Among-All P c (x ∷ xs) h (inr there) = Among-All P c xs h.1 there

module _ ⦃lib : DecimalLib⦄ where
  -- The order's user has an account in each of the currencies, and the order trades two of them.
  abbrev pub IsServed : List String → List (Uuid × String) → Order → Type 0
  IsServed cs ks o = All (λ c. HasKey o.user_id c ks) cs × PartsAmong cs (split_symbol o.symbol)

  -- What a step read does not change the database.
  abbrev pub Reads : {A : Type 0} → (A → Type 0) → World → Result A × World → Type 0
  Reads P w r = After r (λ a w'. P a × (w'.db ≡ w.db))

  pub Reads-bind :
      {A B : Type 0} (P : A → Type 0) (R : B → Type 0) (m : Action A) (f : A → Action B) (w : World)
      → Reads P w (m w)
      → ((a : A) (w' : World) → P a → w'.db ≡ w.db → Reads R w' (f a w'))
      → Reads R w ((m >>= f) w)
  Reads-bind P R m f w h k =
      After-bind m f w (λ a w'. P a × (w'.db ≡ w.db)) (λ b w'. R b × (w'.db ≡ w.db)) h
        (λ a w' p.
          After-weaken (f a w') (λ b w''. R b × (w''.db ≡ w'.db)) (λ b w''. R b × (w''.db ≡ w.db))
            (k a w' p.0 p.1) (λ b w'' q. (q.0, q.1 ∙ p.1)))

  abbrev pub Any : Unit {0} → Type 0
  Any _ = Unit {0}

  pub found :
      (P : Order → Type 0) (id : Uuid) (e : Error) (rows : List Order) (w : World)
      → All P rows
      → Reads P w (or_raise (find_order id rows) e w)
  found P id e [] w h = tt
  found P id e (o ∷ rows) w h = elim (Bool-cases (o.id == id)) [
    | inl here ↦ rw here (h.0, refl)
    | inr there ↦ rw there (found P id e rows w h.1)
  ]

  pub guard-Reads : (b : Bool) (e : Error) (w : World) → Reads Any w (guard b e w)
  guard-Reads true e w = (tt, refl)
  guard-Reads false e w = tt

  pub put-All :
      (P : Order → Type 0) (o : Order) (rows : List Order) → P o → All P rows → All P (put o rows)
  put-All P o [] p h = tt
  put-All P o (x ∷ rows) p h = elim (Bool-cases (x.id == o.id)) [
    | inl here ↦ rw here (p, put-All P o rows p h.1)
    | inr there ↦ rw there (h.0, put-All P o rows p h.1)
  ]

  served-TradesIn :
      (cs : List String) (ks : List (Uuid × String)) (o : Order) (parts : String × String)
      → All (λ c. HasKey o.user_id c ks) cs
      → PartsAmong cs (some parts)
      → TradesIn ks parts o.user_id
  served-TradesIn cs ks o (base, quote) has among = (
    Among-All (λ c. HasKey o.user_id c ks) base cs has among.0,
    Among-All (λ c. HasKey o.user_id c ks) quote cs has among.1,
  )

  module _ (P : Order → Type 0) where
    found_row-Reads :
        (id : Uuid) (rows : List Order) (w : World)
        → All P rows
        → Reads P w (
          (row_or_none (find_order id rows) w.db).0,
          record w { db = (row_or_none (find_order id rows) w.db).1; calls = suc w.calls },
        )
    found_row-Reads id [] w h = tt
    found_row-Reads id (o ∷ rows) w h = elim (Bool-cases (o.id == id)) [
      | inl here ↦ rw here (h.0, refl)
      | inr there ↦ rw there (found_row-Reads id rows w h.1)
    ]

    stale-Reads :
        (w : World) (r : Result Order × World) → Reads P w r → Reads P w (stale_if_missing r)
    stale-Reads w (ok o, w') h = h
    stale-Reads w (err no_rows, w') h = tt
    stale-Reads w (err e, w') h = tt

    pub lock_order-Reads : (id : Uuid) (w : World) → All P w.db.orders → Reads P w (lock_order id w)
    unfolding get_order_for_update
    lock_order-Reads id w h = stale-Reads w (get_order_for_update id w) (
        After-statement (λ db. row_or_none (find_order id db.orders) db) w
          (λ o w'. P o × (w'.db ≡ w.db)) (found_row-Reads id w.db.orders w h))

  module _ (cs : List String) (ks : List (Uuid × String)) where
    pub lock_orders-Reads :
        (ids : List Uuid) (w : World)
        → All (IsServed cs ks) w.db.orders
        → Reads (All (IsServed cs ks)) w (lock_orders ids w)
    unfolding lock_orders
    lock_orders-Reads [] w h = (tt, refl)
    lock_orders-Reads (id ∷ ids) w h =
        Reads-bind (IsServed cs ks) (All (IsServed cs ks)) (lock_order id)
          (λ o. lock_orders ids >>= λ os. pure (o ∷ os)) w
          (lock_order-Reads (IsServed cs ks) id w h)
          (λ o w' served same.
            Reads-bind (All (IsServed cs ks)) (All (IsServed cs ks)) (lock_orders ids)
              (λ os. pure (o ∷ os)) w'
              (lock_orders-Reads ids w' (subst (λ db. All (IsServed cs ks) db.orders) (sym same) h))
              (λ os w'' all _. ((served, all), refl)))

    -- Updates that cancel out in every currency, each to an account that exists.
    abbrev pub IsBalanced : List AccountUpdate → Type 0
    IsBalanced ups = All (IsBacked ks) ups × ((c : String) → net c ups ≡ pos 0)

    abbrev pub append-IsBalanced :
        (xs ys : List AccountUpdate) → IsBalanced xs → IsBalanced ys → IsBalanced (xs ++ ys)
    append-IsBalanced xs ys h k = (
      All-append (IsBacked ks) xs ys h.0 k.0,
      λ c. eq_of_parts _ _ (
          omega (
            decimal_sums,
            parts_of_eq _ _ (net-append c xs ys),
            parts_of_eq _ _ (h.1 c),
            parts_of_eq _ _ (k.1 c),
          )),
    )

    pub settlement-Reads :
        (trade : Trade) (taker maker : Order) (w : World)
        → IsServed cs ks taker
        → IsServed cs ks maker
        → Reads IsBalanced w
            (or_raise (calculate_trade_settlement trade taker maker) invalid_symbol w)
    unfolding calculate_trade_settlement
    settlement-Reads trade taker maker w t m = go (split_symbol taker.symbol) t.1
      where
        go :
            (parts : Option (String × String))
            → PartsAmong cs parts
            → Reads IsBalanced w (
                or_raise
                  (Option.map
                    (trade_updates trade taker
                      (if taker.side == side_buy then taker else maker)
                      (if taker.side == side_buy then maker else taker))
                    parts)
                  invalid_symbol
                  w)
        go none h = tt
        go (some parts) among = elim (Bool-cases (taker.side == side_buy)) [
          | inl buys ↦ rw buys (
            (
              trade_updates-IsBacked ks trade taker taker maker parts
                  (served-TradesIn cs ks taker parts t.0 among)
                  (served-TradesIn cs ks maker parts m.0 among),
              λ c. trade_updates-net c trade taker taker maker parts,
            ),
            refl,
          )
          | inr sells ↦ rw sells (
            (
              trade_updates-IsBacked ks trade taker maker taker parts
                  (served-TradesIn cs ks maker parts m.0 among)
                  (served-TradesIn cs ks taker parts t.0 among),
              λ c. trade_updates-net c trade taker maker taker parts,
            ),
            refl,
          )
        ]
