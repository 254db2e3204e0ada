-- ===== src/OrderService/Settlement/Prepare.antt =====
-- The settlement transaction up to its first write, as the consumer runs it.
use cyptocurrency_exchange_b.Prelude.{
  ℕ, suc, String, ◌≡◌, refl, sym, subst, Bool, not, List, [], ◌∷◌, ◌++◌, ltb, Bool-cases, inl, inr,
  All, ◌==◌,
}
use cyptocurrency_exchange_b.Decimal.{DecimalLib}
use cyptocurrency_exchange_b.Engine.Types.{Uuid, Trade}
use cyptocurrency_exchange_b.Domain.Models.{Order, status_new}
use cyptocurrency_exchange_b.Domain.Events.{SettlementRequestedEvent}
use cyptocurrency_exchange_b.Store.World.{
  stale_settlement_event, idempotency_skip, missing_order, invalid_symbol, ok, World, Action, pure,
  guard, or_raise, now, ◌>>=◌, ◌>>◌,
}
use cyptocurrency_exchange_b.Store.Orders.{find_order}
use cyptocurrency_exchange_b.Store.Trades.{has_trade, trade_exists_by_id}
use cyptocurrency_exchange_b.Store.Locks.{validate_fencing_token_tx}
use cyptocurrency_exchange_b.Store.World.After.{After-statement}
use cyptocurrency_exchange_b.OrderService.Settlement.{
  put, check_fencing, check_replay, settle_trades, fill_maker, fill_taker, close_taker, refund,
  closed, finish, prepare, prepare_fenced, lock_orders, order_ids,
}
use cyptocurrency_exchange_b.OrderService.Updates.{AccountUpdate, calculate_trade_settlement}
use cyptocurrency_exchange_b.OrderService.Settlement.Net.{refund-net}
use cyptocurrency_exchange_b.OrderService.Settlement.Backed.{refund-IsBacked}
use cyptocurrency_exchange_b.OrderService.Settlement.Reads.{
  IsServed, Reads, Reads-bind, Any, found, guard-Reads, put-All, lock_orders-Reads,
  settlement-Reads, IsBalanced, append-IsBalanced,
}

module _ ⦃lib : DecimalLib⦄ where
  abbrev AnyBool : Bool → Type 0
  AnyBool _ = Unit {0}

  valid-Reads :
      (token : ℕ) (w : World)
      → Reads AnyBool w (validate_fencing_token_tx "matching-engine:global" token w)
  unfolding validate_fencing_token_tx
  valid-Reads token w = elim (Bool-cases (token == 0)) [
    | inl zero ↦ rw zero (tt, refl)
    | inr other ↦ elim (Bool-cases (w.env.fails w.calls)) [
      | inl down ↦ rw (other, down) (tt, refl)
      | inr up ↦ rw (other, up) (tt, refl)
    ]
  ]

  pub check_fencing-Reads : (token : ℕ) (w : World) → Reads Any w (check_fencing token w)
  unfolding check_fencing
  check_fencing-Reads token w = elim (Bool-cases (ltb 0 token)) [
    | inl fenced ↦ rw fenced (
        Reads-bind AnyBool Any (validate_fencing_token_tx "matching-engine:global" token)
          (λ valid. guard valid stale_settlement_event) w (valid-Reads token w)
          (λ valid w' _ _. guard-Reads valid stale_settlement_event w'))
    | inr free ↦ rw free (tt, refl)
  ]

  check_replay-Reads : (trades : List Trade) (w : World) → Reads Any w (check_replay trades w)
  unfolding check_replay trade_exists_by_id
  check_replay-Reads [] w = (tt, refl)
  check_replay-Reads (t ∷ trades) w =
      Reads-bind AnyBool Any (trade_exists_by_id t.id)
        (λ exists. guard (not exists) idempotency_skip) w
        (After-statement (λ db. (ok (has_trade t.id db.trades), db)) w
          (λ b w'. AnyBool b × (w'.db ≡ w.db)) (tt, refl))
        (λ exists w' _ _. guard-Reads (not exists) idempotency_skip w')

  module _ (cs : List String) (ks : List (Uuid × String)) where
    -- Orders and updates as the loop carries them.
    abbrev pub IsSettled : List Order × List AccountUpdate → Type 0
    IsSettled (orders, updates) = All (IsServed cs ks) orders × IsBalanced cs ks updates

    settle_trades-Reads :
        (taker_id : Uuid) (trades : List Trade) (orders : List Order) (updates : List AccountUpdate)
        (w : World)
        → All (IsServed cs ks) orders
        → IsBalanced cs ks updates
        → Reads IsSettled w (settle_trades taker_id trades orders updates w)
    unfolding settle_trades
    settle_trades-Reads taker_id [] orders updates w h b = ((h, b), refl)
    settle_trades-Reads taker_id (trade ∷ trades) orders updates w h b =
        Reads-bind (IsServed cs ks) IsSettled
          (or_raise (find_order trade.maker_order_id orders) missing_order)
          (λ maker. now >>= λ at. from_maker (fill_maker trade at maker)) w
          (found (IsServed cs ks) trade.maker_order_id missing_order orders w h)
          (λ maker w' served _.
            maker-Reads (settle_trades-Reads taker_id trades)
              (fill_maker trade (w'.env.unix_milli w'.calls) maker)
              (record w' { calls = suc w'.calls }) served)
      where
        from_taker : Order → Order → Action (List Order × List AccountUpdate)
        from_taker filled taker =
            or_raise (calculate_trade_settlement trade taker filled) invalid_symbol >>= λ ups.
            settle_trades taker_id trades (put (fill_taker trade taker) (put filled orders))
              (updates ++ ups)

        from_maker : Order → Action (List Order × List AccountUpdate)
        from_maker filled =
            or_raise (find_order taker_id (put filled orders)) missing_order >>= from_taker filled

        Rest : Type 0
        Rest =
            (orders : List Order) (updates : List AccountUpdate) (w : World)
            → All (IsServed cs ks) orders
            → IsBalanced cs ks updates
            → Reads IsSettled w (settle_trades taker_id trades orders updates w)

        taker-Reads :
            Rest
            → (filled taker : Order) (w : World) → IsServed cs ks filled
            → IsServed cs ks taker
            → Reads IsSettled w (from_taker filled taker w)
        taker-Reads rest filled taker w m t =
            Reads-bind (IsBalanced cs ks) IsSettled
              (or_raise (calculate_trade_settlement trade taker filled) invalid_symbol) _ w
              (settlement-Reads cs ks trade taker filled w t m)
              (λ ups w' balanced _.
                rest (put (fill_taker trade taker) (put filled orders)) (updates ++ ups) w'
                  (put-All (IsServed cs ks) (fill_taker trade taker) (put filled orders) t
                    (put-All (IsServed cs ks) filled orders m h))
                  (append-IsBalanced cs ks updates ups b balanced))

        maker-Reads :
            Rest
            → (filled : Order) (w : World) → IsServed cs ks filled
            → Reads IsSettled w (from_maker filled w)
        maker-Reads rest filled w m =
            Reads-bind (IsServed cs ks) IsSettled
              (or_raise (find_order taker_id (put filled orders)) missing_order) (from_taker filled)
              w
              (found (IsServed cs ks) taker_id missing_order (put filled orders) w
                (put-All (IsServed cs ks) filled orders m h))
              (λ taker w' t _. taker-Reads rest filled taker w' m t)

    finish-Reads :
        (event : SettlementRequestedEvent) (settled : List Order × List AccountUpdate) (w : World)
        → IsSettled settled
        → Reads IsSettled w (finish event settled w)
    finish-Reads event (orders, updates) w (h, b) =
        Reads-bind (IsServed cs ks) IsSettled
          (or_raise (find_order event.taker_order_id orders) missing_order)
          (λ taker. pure (
            put (closed event taker) orders,
            updates ++ refund event (closed event taker) (close_taker event taker).1,
          ))
          w (found (IsServed cs ks) event.taker_order_id missing_order orders w h)
          (λ taker w' served _. (
            (
              put-All (IsServed cs ks) (closed event taker) orders served h,
              append-IsBalanced cs ks updates
                  (refund event (closed event taker) (close_taker event taker).1) b
                  (
                    refund-IsBacked ks event (closed event taker) (close_taker event taker).1,
                    λ c. refund-net c event (closed event taker) (close_taker event taker).1,
                  ),
            ),
            refl,
          ))

    pub prepare-Reads :
        (event : SettlementRequestedEvent) (w : World)
        → All (IsServed cs ks) w.db.orders
        → Reads IsSettled w (prepare event w)
    unfolding prepare prepare_fenced
    prepare-Reads event w h =
        Reads-bind Any IsSettled (check_fencing event.fencing_token) (λ _. locking) w
          (check_fencing-Reads event.fencing_token w)
          (λ _ w' _ same.
            locking-Reads w' (subst (λ db. All (IsServed cs ks) db.orders) (sym same) h))
      where
        replaying : List Order → Action (List Order × List AccountUpdate)
        replaying locked =
            check_replay event.trades
            >> (settle_trades event.taker_order_id event.trades locked [] >>= finish event)

        guarding : List Order → Order → Action (List Order × List AccountUpdate)
        guarding locked taker =
            guard (taker.status == status_new) idempotency_skip >> replaying locked

        with_locked : List Order → Action (List Order × List AccountUpdate)
        with_locked locked =
            or_raise (find_order event.taker_order_id locked) missing_order >>= guarding locked

        locking : Action (List Order × List AccountUpdate)
        locking = lock_orders (order_ids event.taker_order_id event.trades) >>= with_locked

        replaying-Reads :
            (locked : List Order) (w : World)
            → All (IsServed cs ks) locked
            → Reads IsSettled w (replaying locked w)
        replaying-Reads locked w h =
            Reads-bind Any IsSettled (check_replay event.trades)
              (λ _. settle_trades event.taker_order_id event.trades locked [] >>= finish event) w
              (check_replay-Reads event.trades w)
              (λ _ w' _ _.
                Reads-bind IsSettled IsSettled
                  (settle_trades event.taker_order_id event.trades locked []) (finish event) w'
                  (settle_trades-Reads event.taker_order_id event.trades locked [] w' h
                    (tt, λ c. refl))
                  (λ settled w'' s _. finish-Reads event settled w'' s))

        with_locked-Reads :
            (locked : List Order) (w : World)
            → All (IsServed cs ks) locked
            → Reads IsSettled w (with_locked locked w)
        with_locked-Reads locked w h =
            Reads-bind (IsServed cs ks) IsSettled
              (or_raise (find_order event.taker_order_id locked) missing_order) (guarding locked) w
              (found (IsServed cs ks) event.taker_order_id missing_order locked w h)
              (λ taker w' _ _.
                Reads-bind Any IsSettled (guard (taker.status == status_new) idempotency_skip)
                  (λ _. replaying locked) w'
                  (guard-Reads (taker.status == status_new) idempotency_skip w')
                  (λ _ w'' _ _. replaying-Reads locked w'' h))

        locking-Reads :
            (w : World) → All (IsServed cs ks) w.db.orders → Reads IsSettled w (locking w)
        locking-Reads w h =
            Reads-bind (All (IsServed cs ks)) IsSettled
              (lock_orders (order_ids event.taker_order_id event.trades)) with_locked w
              (lock_orders-Reads cs ks (order_ids event.taker_order_id event.trades) w h)
              (λ locked w' served _. with_locked-Reads locked w' served)
