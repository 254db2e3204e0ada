-- ===== src/MatchingService/Restore/Turnover.antt =====
-- The books of an instance that has just become the leader.
use cyptocurrency_exchange_b.Prelude.{
  ℕ, suc, ◌+◌, String, ◌≡◌, refl, ap, sym, subst, ◌∙◌, inl, inr, Bool, true, false, List, [], ◌∷◌,
  Bool-cases, ◌==◌, ◌&&◌, ◌||◌, ltb, str_eq, eq_iff, if◌then◌else◌, arith,
}
use cyptocurrency_exchange_b.Decimal.{DecimalLib, sub}
use cyptocurrency_exchange_b.Engine.Types.{Order, type_limit, side_buy, side_sell}
use cyptocurrency_exchange_b.Engine.OrderBook.{insert_stable, sort_from, slice_stable}
use cyptocurrency_exchange_b.Engine.OrderBook.Sorted.{IsSorted}
use cyptocurrency_exchange_b.Engine.Matching.{get_order_book_snapshot}
use cyptocurrency_exchange_b.Engine.Manager.{EngineManager, find_engine, get_engine, get_symbols}
use cyptocurrency_exchange_b.Domain.Models as Models
use cyptocurrency_exchange_b.Domain.Models.{status_new, status_partially_filled}
use cyptocurrency_exchange_b.Store.World.{db_error, ok, err, World, Action, pure}
use cyptocurrency_exchange_b.Store.World.After.{chain}
use cyptocurrency_exchange_b.Store.Orders.{select, is_active, get_active_orders}
use cyptocurrency_exchange_b.MatchingService.Bus.{Subscriber, set_fencing_token}
use cyptocurrency_exchange_b.MatchingService.{
  on_order_book_update, sync_each, sync_recovered_order_books, book_depth,
}
use cyptocurrency_exchange_b.MatchingService.Engines.{
  AllEngines, get_engine-All, get_engine-found, get_engine-other,
}
use cyptocurrency_exchange_b.MatchingService.Updates.{on_order_book_update-Told}
use cyptocurrency_exchange_b.MatchingService.Restore.{
  restore_each, restore_engine_snapshot, start_leading, on_become_leader,
}
use cyptocurrency_exchange_b.MatchingService.Restore.Content.{
  count, on_side, side_under, restored_orders, restored_orders-one, waiting, get_engine-side,
  restore_each-waiting,
}

-- A sum over the elements of a slice does not change when the slice is sorted.
module _ {A : Type 0} (less : A → A → Bool) (f : List A → ℕ) (one : A → ℕ)
    (adds : (a : A) (xs : List A) → f (a ∷ xs) ≡ one a + f xs) where
  insert_stable-sum : (a : A) (xs : List A) → f (insert_stable less a xs) ≡ one a + f xs
  unfolding insert_stable
  insert_stable-sum a [] = adds a []
  insert_stable-sum a (x ∷ xs) = elim (Bool-cases (less a x)) [
    | inl lt ↦ rw (lt, insert_stable) (adds a (x ∷ xs))
    | inr ge ↦
        rw (ge, insert_stable)
          (omega (arith, adds x (insert_stable less a xs), insert_stable-sum a xs, adds x xs))
  ]

  sort_from-sum : (done xs : List A) → f (sort_from less done xs) + f [] ≡ f done + f xs
  unfolding sort_from
  sort_from-sum done [] = refl
  sort_from-sum done (x ∷ xs) =
      omega
        (arith, sort_from-sum (insert_stable less x done) xs, insert_stable-sum x done, adds x xs)

  slice_stable-sum : (xs : List A) → f (slice_stable less xs) ≡ f xs
  unfolding slice_stable
  slice_stable-sum xs = omega (arith, sort_from-sum [] xs)

module _ ⦃lib : DecimalLib⦄ where
  module _ (p : Order → Bool) (symbol : String) (buy : Bool) where
    get_engine-waiting :
        (s : String) (m : EngineManager)
        → waiting p symbol buy (get_engine s m).1 ≡ waiting p symbol buy m
    get_engine-waiting s m = elim (Bool-cases (str_eq s symbol)) [
      | inl same ↦
          subst (λ x. waiting p x buy (get_engine s m).1 ≡ waiting p x buy m)
            ((eq_iff s symbol).0 same)
            (ap (λ o. count p (side_under buy o)) (get_engine-found s m)
              ∙ ap (count p) (get_engine-side buy s m))
      | inr apart ↦ ap (λ o. count p (side_under buy o)) (get_engine-other s symbol m apart)
    ]

    sync_each-waiting :
        (depth : ℕ) (symbols : List String) (s : Subscriber)
        → AllEngines IsSorted s.engine_manager
        → let s' = sync_each depth symbols s in
          (waiting p symbol buy s'.engine_manager ≡ waiting p symbol buy s.engine_manager)
          × AllEngines IsSorted s'.engine_manager
    unfolding sync_each
    sync_each-waiting depth [] s sorted = (refl, sorted)
    sync_each-waiting depth (x ∷ xs) s sorted =
        let (e, engines) = get_engine x s.engine_manager in
        let s1 : Subscriber = record s { engine_manager = engines } in
        let snapshot = get_order_book_snapshot e depth in
        let s2 = on_order_book_update x snapshot s1 in
        let same = (on_order_book_update-Told x snapshot s1).0.engine_manager in
        let kept =
          (get_engine-All IsSorted x s.engine_manager (record { bids = tt; asks = tt }) sorted).1 in
        let (counts, sorted') =
          sync_each-waiting depth xs s2 (subst (AllEngines IsSorted) (sym same) kept) in
        (counts ∙ ap (waiting p symbol buy) same ∙ get_engine-waiting x s.engine_manager, sorted')

  -- An order still waits in the market.
  abbrev pub is_open : Models.Order → Bool
  is_open o =
      o.type == type_limit && (o.status == status_new || o.status == status_partially_filled)

  -- The order as it should wait: with what was not filled of it.
  abbrev pub left_of : Models.Order → Order
  left_of o = record {
    id = o.id;
    user_id = o.user_id;
    side = if o.side == side_buy then side_buy else side_sell;
    type = type_limit;
    price = o.price;
    quantity = sub o.quantity o.filled_quantity;
  }

  -- What the open limit orders of a symbol still want on a side, `true` being that of buyers.
  abbrev pub still_wanted : String → Bool → List Models.Order → List Order
  still_wanted symbol buy [] = []
  still_wanted symbol buy (o ∷ os) =
      let rest = still_wanted symbol buy os in
      if is_open o && (str_eq o.symbol symbol && on_side buy (o.side == side_buy))
      then left_of o ∷ rest
      else rest

  restored_orders-still_wanted :
      (symbol : String) (buy : Bool) (rows : List Models.Order)
      → restored_orders symbol buy (select is_active rows) ≡ still_wanted symbol buy rows
  restored_orders-still_wanted symbol buy [] = refl
  restored_orders-still_wanted symbol buy (o ∷ os) =
      let rest = restored_orders-still_wanted symbol buy os in
      elim (Bool-cases (o.type == type_limit)) [
        | inl limit ↦
            elim (Bool-cases (o.status == status_new || o.status == status_partially_filled)) [
              | inl still ↦ ground (arith, limit, still, rest)
              | inr closed ↦ ground (arith, limit, closed, rest)
            ]
        | inr market ↦ ground (arith, market, rest)
      ]

  -- What the engines hold, by whether the query for the active orders failed: nothing; or, in price
  -- order, what the open orders still want, each as often under its symbol on its side.
  abbrev pub HasRestored : Bool → List Models.Order → EngineManager → Type 0
  HasRestored true rows m = m ≡ []
  HasRestored false rows m =
      AllEngines IsSorted m
      × ((p : Order → Bool) (symbol : String) (buy : Bool)
          → count p (side_under buy (find_engine symbol m))
            ≡ count p (still_wanted symbol buy rows))

  restored-waiting :
      (p : Order → Bool) (symbol : String) (buy : Bool) (less : Models.Order → Models.Order → Bool)
      (rows : List Models.Order)
      → (waiting p symbol buy (restore_each (slice_stable less rows) [])
          ≡ count p (restored_orders symbol buy rows))
        × AllEngines IsSorted (restore_each (slice_stable less rows) [])
  unfolding find_engine
  restored-waiting p symbol buy less rows =
      let (counts, sorted) = restore_each-waiting p symbol buy (slice_stable less rows) [] tt in
      (
        omega (
          arith,
          counts,
          slice_stable-sum less (λ os. count p (restored_orders symbol buy os))
              (λ o. count p (restored_orders symbol buy (o ∷ [])))
              (λ o os. restored_orders-one p symbol buy o os) rows,
        ),
        sorted,
      )

  by_age : Models.Order → Models.Order → Bool
  by_age a b = ltb a.created_at b.created_at

  get_active_orders-result :
      (w : World)
      → get_active_orders w ≡ (
          if w.env.fails w.calls then (err db_error, record w { calls = suc w.calls }) else (
            ok (slice_stable by_age (select is_active w.db.orders)),
            record w { calls = suc w.calls },
          ))
  unfolding get_active_orders by_age
  get_active_orders-result w = elim (Bool-cases (w.env.fails w.calls)) [
    | inl down ↦ rw down refl
    | inr up ↦ rw up refl
  ]

  restore_engine_snapshot-result :
      (m : EngineManager) (w : World)
      → (restore_engine_snapshot m w).0 ≡ (
          if w.env.fails w.calls
          then err db_error
          else ok (restore_each (slice_stable by_age (select is_active w.db.orders)) m))
  unfolding restore_engine_snapshot
  restore_engine_snapshot-result m w =
      ap (λ r. (chain r restored).0) (get_active_orders-result w) ∙ chosen (w.env.fails w.calls)
    where
      restored : List Models.Order → Action EngineManager
      restored orders = pure (restore_each orders m)

      rows : List Models.Order
      rows = slice_stable by_age (select is_active w.db.orders)

      w' : World
      w' = record w { calls = suc w.calls }

      chosen :
          (b : Bool)
          → (chain (if b then (err db_error, w') else (ok rows, w')) restored).0
            ≡ (if b then err db_error else ok (restore_each rows m))
      chosen true = refl
      chosen false = refl

  start_leading-HasRestored :
      (rows : List Models.Order) (fails : Bool) (s : Subscriber)
      → s.engine_manager ≡ []
      → HasRestored fails rows
          (start_leading
            (if fails
              then err db_error
              else ok (restore_each (slice_stable by_age (select is_active rows)) []))
            s).engine_manager
  unfolding start_leading sync_recovered_order_books sync_each
  start_leading-HasRestored rows true s none_yet =
      ap
        (λ m.
          (sync_each book_depth (get_symbols m) (record s { engine_manager = m })).engine_manager)
        none_yet
  start_leading-HasRestored rows false s none_yet =
      let m = restore_each (slice_stable by_age (select is_active rows)) [] in
      let sorted = (restored-waiting (λ _. true) "" true by_age (select is_active rows)).1 in
      let s1 : Subscriber = record s { engine_manager = m } in
      (
        (sync_each-waiting (λ _. true) "" true book_depth (get_symbols m) s1 sorted).1,
        λ p symbol buy.
            (sync_each-waiting p symbol buy book_depth (get_symbols m) s1 sorted).0
            ∙ (restored-waiting p symbol buy by_age (select is_active rows)).0
            ∙ ap (count p) (restored_orders-still_wanted symbol buy rows),
      )

  -- When an instance becomes the leader, the engines that it had are gone. If the query for the
  -- active orders fails, it has none; otherwise the books hold exactly the stored limit orders that
  -- are new or partially filled, each under its symbol and on its side, with its ID, user and price
  -- and the part of its quantity that was not filled, as often as it is stored, and every book is in
  -- price order.
  pub on_become_leader-HasRestored :
      (token : ℕ) (w : World) (s : Subscriber)
      → HasRestored (w.env.fails w.calls) w.db.orders (on_become_leader token w s).1.engine_manager
  unfolding on_become_leader
  on_become_leader-HasRestored token w s =
      let s' = set_fencing_token token (record s { engine_manager = [] }) in
      subst (λ r. HasRestored (w.env.fails w.calls) w.db.orders (start_leading r s').engine_manager)
        (sym (restore_engine_snapshot-result [] w))
        (start_leading-HasRestored w.db.orders (w.env.fails w.calls) s' refl)
