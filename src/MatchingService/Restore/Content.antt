-- ===== src/MatchingService/Restore/Content.antt =====
-- The engines of a new leader hold what the stored active orders still want, and nothing else.
use cyptocurrency_exchange_b.Prelude.{
  ℕ, suc, ◌+◌, String, ◌≡◌, refl, ap, sym, subst, ◌∙◌, inl, inr, Bool, true, false, not, ◌&&◌,
  Option, none, some, List, [], ◌∷◌, ◌++◌, Bool-cases, str_eq, eq_iff, ◌==◌, if◌then◌else◌, arith,
}
use cyptocurrency_exchange_b.Decimal.{DecimalLib}
use cyptocurrency_exchange_b.Engine.Types.{Order, OrderSide, type_limit, side_buy}
use cyptocurrency_exchange_b.Engine.OrderBook.Sorted.{IsSorted, side_of, is_buy, Joins}
use cyptocurrency_exchange_b.Engine.Matching.{Engine, restore_order}
use cyptocurrency_exchange_b.Engine.Matching.Cancel.{restore_order-Joins, restore_order-IsSorted}
use cyptocurrency_exchange_b.Engine.Manager.{EngineManager, find_engine, found_or_new, get_engine}
use cyptocurrency_exchange_b.Domain.Models as Models
use cyptocurrency_exchange_b.MatchingService.{match_side, write_engine}
use cyptocurrency_exchange_b.MatchingService.Engines.{AllEngines, get_engine-All, write_engine-All}
use cyptocurrency_exchange_b.MatchingService.Placed.{registered}
use cyptocurrency_exchange_b.MatchingService.Restore.{matching_order, restore_one, restore_each}

-- How many elements pass a test.
abbrev pub count {ℓ} : {A : Type ℓ} → (A → Bool) → List A → ℕ
count p [] = 0
count p (x ∷ xs) = let n = count p xs in if p x then suc n else n

count-insert {ℓ} :
    {A : Type ℓ} (p : A → Bool) (x : A) (xs ys : List A)
    → count p (xs ++ x ∷ ys) ≡ (if p x then suc (count p (xs ++ ys)) else count p (xs ++ ys))
count-insert p x [] ys = refl
count-insert p x (z ∷ xs) ys = ground (arith, count-insert p x xs ys)

module _ ⦃lib : DecimalLib⦄ where
  -- The orders that wait on a side under a symbol.
  abbrev pub side_under : Bool → Option Engine → List Order
  side_under buy none = []
  side_under buy (some e) = side_of buy e

  abbrev pub on_side : Bool → Bool → Bool
  on_side buy own = if buy then own else not own

  -- The orders that restoring adds for stored ones, on a side under a symbol.
  abbrev pub restored_orders : String → Bool → List Models.Order → List Order
  restored_orders symbol buy [] = []
  restored_orders symbol buy (o ∷ os) =
      let rest = restored_orders symbol buy os in
      if o.type == type_limit && (str_eq o.symbol symbol && on_side buy (o.side == side_buy))
      then matching_order o ∷ rest
      else rest

  pub match_side-buy : (side : OrderSide) → (match_side side == side_buy) ≡ (side == side_buy)
  match_side-buy side = ground arith

  pub get_engine-side :
      (buy : Bool) (symbol : String) (m : EngineManager)
      → side_of buy (get_engine symbol m).0 ≡ side_under buy (find_engine symbol m)
  unfolding get_engine
  get_engine-side buy symbol m = chosen buy (find_engine symbol m)
    where
      chosen :
          (buy : Bool) (o : Option Engine)
          → side_of buy (found_or_new symbol m o).0 ≡ side_under buy o
      chosen true none = refl
      chosen false none = refl
      chosen buy (some e) = refl

  module _ (p : Order → Bool) where
    joined :
        (buy : Bool) (o : Order) (old new : List Order)
        → Joins buy o old new
        → count p new ≡ (if p o then suc (count p old) else count p old)
    joined buy o old new j =
        ap (count p) j.joined
        ∙ count-insert p o j.before j.after
        ∙ ap (λ (xs : List Order). if p o then suc (count p xs) else count p xs) (sym j.split)

    joined-side :
        (buy own : Bool) (o : Order) (e e' : Engine)
        → Joins own o (side_of own e) (side_of own e')
          × (side_of (not own) e' ≡ side_of (not own) e)
        → count p (side_of buy e')
          ≡ count p (side_of buy e) + count p (if (on_side buy own) then o ∷ [] else [])
    joined-side true true o e e' (j, same) =
        ground (arith, joined true o (side_of true e) (side_of true e') j)
    joined-side true false o e e' (j, same) = omega (arith, ap (count p) same)
    joined-side false true o e e' (j, same) = omega (arith, ap (count p) same)
    joined-side false false o e e' (j, same) =
        ground (arith, joined false o (side_of false e) (side_of false e') j)

    abbrev pub waiting : String → Bool → EngineManager → ℕ
    waiting symbol buy m = count p (side_under buy (find_engine symbol m))

    -- An order of the symbol joins its side.
    joined-engine :
        (buy : Bool) (o : Models.Order) (m : EngineManager)
        → AllEngines IsSorted m
        → let (e, engines) = get_engine o.symbol m in
          waiting o.symbol buy (write_engine o.symbol (restore_order e (matching_order o)) engines)
          ≡ waiting o.symbol buy m
            + count p (if on_side buy (o.side == side_buy) then matching_order o ∷ [] else [])
    joined-engine buy o m sorted =
        let e = (get_engine o.symbol m).0 in
        let e' = restore_order e (matching_order o) in
        let here =
          (get_engine-All IsSorted o.symbol m (record { bids = tt; asks = tt }) sorted).0 in
        let found = (registered o.symbol e' m).0 in
        ap (λ x. count p (side_under buy x)) found
        ∙ joined-side buy (is_buy order) order e e' (restore_order-Joins e order here)
        ∙ ap (λ (os : List Order). count p os + added (is_buy order))
            (get_engine-side buy o.symbol m)
        ∙ ap (λ (own : Bool). waiting o.symbol buy m + added own) (match_side-buy o.side)
      where
        order : Order
        order = matching_order o

        added : Bool → ℕ
        added own = count p (if on_side buy own then order ∷ [] else [])

    restore_one-waiting :
        (symbol : String) (buy : Bool) (o : Models.Order) (m : EngineManager)
        → AllEngines IsSorted m
        → waiting symbol buy (restore_one o m)
          ≡ waiting symbol buy m + count p (restored_orders symbol buy (o ∷ []))
    unfolding restore_one
    restore_one-waiting symbol buy o m sorted = elim (Bool-cases (o.type == type_limit)) [
      | inr other ↦ rw other (omega arith)
      | inl limit ↦ elim (Bool-cases (str_eq o.symbol symbol)) [
        | inr apart ↦
            let there = (registered o.symbol (restored o m) m).1 in
            rw (limit, apart)
              (ap (λ x. count p (side_under buy x)) (there symbol apart) ∙ omega arith)
        | inl same ↦ rw (limit, same) (of_symbol ((eq_iff o.symbol symbol).0 same))
      ]
    ]
      where
        restored : Models.Order → EngineManager → Engine
        restored o m = restore_order (get_engine o.symbol m).0 (matching_order o)

        of_symbol :
            o.symbol ≡ symbol
            → waiting symbol buy (write_engine o.symbol (restored o m) (get_engine o.symbol m).1)
              ≡ waiting symbol buy m
                + count p (if on_side buy (o.side == side_buy) then matching_order o ∷ [] else [])
        of_symbol same =
            subst
              (λ x.
                waiting x buy (write_engine o.symbol (restored o m) (get_engine o.symbol m).1)
                ≡ waiting x buy m
                  + count p
                      (if on_side buy (o.side == side_buy) then matching_order o ∷ [] else []))
              same (joined-engine buy o m sorted)

    restore_one-IsSorted :
        (o : Models.Order) (m : EngineManager)
        → AllEngines IsSorted m
        → AllEngines IsSorted (restore_one o m)
    unfolding restore_one
    restore_one-IsSorted o m sorted = chosen (o.type == type_limit)
      where
        e : Engine
        e = (get_engine o.symbol m).0

        engines : EngineManager
        engines = (get_engine o.symbol m).1

        e' : Engine
        e' = restore_order e (matching_order o)

        chosen :
            (b : Bool) → AllEngines IsSorted (if b then write_engine o.symbol e' engines else m)
        chosen true =
            let (here, rest) =
              get_engine-All IsSorted o.symbol m (record { bids = tt; asks = tt }) sorted in
            write_engine-All IsSorted o.symbol e' engines
              (restore_order-IsSorted e (matching_order o) here) rest
        chosen false = sorted

    count-append : (xs ys : List Order) → count p (xs ++ ys) ≡ count p xs + count p ys
    count-append [] ys = omega arith
    count-append (x ∷ xs) ys = ground (arith, count-append xs ys)

    pub restored_orders-one :
        (symbol : String) (buy : Bool) (o : Models.Order) (os : List Models.Order)
        → count p (restored_orders symbol buy (o ∷ os))
          ≡ count p (restored_orders symbol buy (o ∷ [])) + count p (restored_orders symbol buy os)
    restored_orders-one symbol buy o os =
        ground (
          arith,
          count-append (restored_orders symbol buy (o ∷ [])) (restored_orders symbol buy os),
        )

    -- Restoring stored orders adds their orders, each to its side under its symbol, and
    -- nothing else, and the books stay in price order.
    pub restore_each-waiting :
        (symbol : String) (buy : Bool) (os : List Models.Order) (m : EngineManager)
        → AllEngines IsSorted m
        → (waiting symbol buy (restore_each os m)
            ≡ waiting symbol buy m + count p (restored_orders symbol buy os))
          × AllEngines IsSorted (restore_each os m)
    unfolding restore_each
    restore_each-waiting symbol buy [] m sorted = (omega arith, sorted)
    restore_each-waiting symbol buy (o ∷ os) m sorted =
        let (counts, sorted') =
          restore_each-waiting symbol buy os (restore_one o m) (restore_one-IsSorted o m sorted) in
        (
          omega (
            arith,
            counts,
            restore_one-waiting symbol buy o m sorted,
            restored_orders-one symbol buy o os,
          ),
          sorted',
        )
