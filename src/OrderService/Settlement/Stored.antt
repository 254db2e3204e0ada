-- ===== src/OrderService/Settlement/Stored.antt =====
-- The trades that the settlement transaction stores, by which a later delivery is recognised.
use cyptocurrency_exchange_b.Prelude.{
  ◌≡◌, refl, inl, inr, ap, sym, subst, ◌∙◌, true, List, [], ◌∷◌, ◌++◌, Bool-cases, ◌==◌, arith,
}
use cyptocurrency_exchange_b.Decimal.{DecimalLib, zero_dec, is_zero, greater_than}
use cyptocurrency_exchange_b.Engine.Types.{Uuid, Trade}
use cyptocurrency_exchange_b.Domain.Models.{Order}
use cyptocurrency_exchange_b.Domain.Events.{SettlementRequestedEvent}
use cyptocurrency_exchange_b.Store.World.{Result, ok, err, World, Action, pure, ◌>>=◌, ◌>>◌}
use cyptocurrency_exchange_b.Store.World.After.{After, After-bind, After-weaken}
use cyptocurrency_exchange_b.Store.Accounts.{update_balance, unlock_funds}
use cyptocurrency_exchange_b.Store.Accounts.Funds.{unlock_funds-Moves, update_balance-others}
use cyptocurrency_exchange_b.Store.Trades.{create_trade, has_trade}
use cyptocurrency_exchange_b.OrderService.Settlement.{
  apply_unlock, apply_amount, apply_updates, create_trades, save_orders, prepare, order_ids,
  settlement_body, write_settlement,
}
use cyptocurrency_exchange_b.OrderService.Updates.{AccountUpdate, aggregate_and_sort}

module _ ⦃lib : DecimalLib⦄ where
  -- The first trade is stored, and stays.
  has_trade-append :
      (id : Uuid) (t : Trade) (rows : List Trade) → t.id ≡ id → has_trade id (rows ++ t ∷ []) ≡ true
  has_trade-append id t [] same = ground arith
  has_trade-append id t (r ∷ rows) same = ground (arith, has_trade-append id t rows same)

  has_trade-kept :
      (id : Uuid) (t : Trade) (rows : List Trade)
      → has_trade id rows ≡ true
      → has_trade id (rows ++ t ∷ []) ≡ true
  has_trade-kept id t [] h = ground (arith, h)
  has_trade-kept id t (r ∷ rows) h = elim (Bool-cases (r.id == id)) [
    | inl here ↦ rw here refl
    | inr there ↦ rw there (has_trade-kept id t rows (ground (arith, h, there)))
  ]

  create_trade-has :
      (t : Trade) (w : World)
      → After (create_trade t w) (λ _ w'. has_trade t.id w'.db.trades ≡ true)
  unfolding create_trade
  create_trade-has t w = elim (Bool-cases (w.env.fails w.calls)) [
    | inl down ↦ rw down tt
    | inr up ↦ elim (Bool-cases (has_trade t.id w.db.trades)) [
      | inl twice ↦ rw (up, twice) tt
      | inr once ↦ rw (up, once) (has_trade-append t.id t w.db.trades refl)
    ]
  ]

  create_trade-keeps :
      (id : Uuid) (t : Trade) (w : World)
      → has_trade id w.db.trades ≡ true
      → After (create_trade t w) (λ _ w'. has_trade id w'.db.trades ≡ true)
  unfolding create_trade
  create_trade-keeps id t w h = elim (Bool-cases (w.env.fails w.calls)) [
    | inl down ↦ rw down tt
    | inr up ↦ elim (Bool-cases (has_trade t.id w.db.trades)) [
      | inl twice ↦ rw (up, twice) tt
      | inr once ↦ rw (up, once) (has_trade-kept id t w.db.trades h)
    ]
  ]

  create_trades-keeps :
      (id : Uuid) (ts : List Trade) (w : World)
      → has_trade id w.db.trades ≡ true
      → After (create_trades ts w) (λ _ w'. has_trade id w'.db.trades ≡ true)
  unfolding create_trades
  create_trades-keeps id [] w h = h
  create_trades-keeps id (t ∷ ts) w h =
      After-bind (create_trade t) (λ _. create_trades ts) w _ _ (create_trade-keeps id t w h)
        (λ _ w' h'. create_trades-keeps id ts w' h')

  module _ (id : Uuid) where
    -- The action leaves the trade stored.
    abbrev Keeps : {A : Type 0} → Action A → Type 0
    Keeps m =
        (w : World)
        → has_trade id w.db.trades ≡ true
        → After (m w) (λ _ w'. has_trade id w'.db.trades ≡ true)

    apply_unlock-Keeps : (up : AccountUpdate) → Keeps (apply_unlock up)
    apply_unlock-Keeps up w h = elim (Bool-cases (greater_than up.unlock zero_dec)) [
      | inl unlocks ↦ rw unlocks (
          After-weaken (unlock_funds up.user_id up.currency up.unlock w) _ _
            (unlock_funds-Moves up.currency up.user_id up.currency up.unlock w)
            (λ _ w' m. ap (λ db. has_trade id db.trades) m.others ∙ h))
      | inr stays ↦ rw stays h
    ]

    apply_amount-Keeps : (up : AccountUpdate) → Keeps (apply_amount up)
    apply_amount-Keeps up w h = elim (Bool-cases (is_zero up.amount)) [
      | inl zero ↦ rw zero h
      | inr amount ↦ rw amount (
          After-weaken (update_balance up.user_id up.currency up.amount w) _ _
            (update_balance-others up.user_id up.currency up.amount w)
            (λ _ w' same. ap (λ db. has_trade id db.trades) same ∙ h))
    ]

    apply_updates-Keeps : (ups : List AccountUpdate) → Keeps (apply_updates ups)
    unfolding apply_updates
    apply_updates-Keeps [] w h = h
    apply_updates-Keeps (up ∷ ups) w h =
        After-bind (apply_unlock up) (λ _. apply_amount up >> apply_updates ups) w _ _
          (apply_unlock-Keeps up w h)
          (λ _ w1 h1.
            After-bind (apply_amount up) (λ _. apply_updates ups) w1 _ _
              (apply_amount-Keeps up w1 h1) (λ _ w2 h2. apply_updates-Keeps ups w2 h2))

  anything : {A : Type 0} (r : Result A × World) → After r (λ _ _. Unit {0})
  anything (ok a, w) = tt
  anything (err e, w) = tt

  -- When the body of the settlement transaction is through, the event's first trade is stored.
  pub settlement_body-stores :
      (event : SettlementRequestedEvent) (t : Trade) (ts : List Trade) (w : World)
      → event.trades ≡ t ∷ ts
      → After (settlement_body event w) (λ _ w'. has_trade t.id w'.db.trades ≡ true)
  unfolding settlement_body write_settlement create_trades
  settlement_body-stores event t ts w first =
      After-bind (prepare event) (λ prepared. saving prepared.0 prepared.1) w _ _
        (anything (prepare event w))
        (λ prepared w1 _.
          After-bind (save_orders (order_ids event.taker_order_id event.trades) prepared.0)
            (storing prepared.1) w1 _ _
            (anything (save_orders (order_ids event.taker_order_id event.trades) prepared.0 w1))
            (λ saved w2 _.
              After-bind (create_trades event.trades) (λ _. applying prepared.1 saved) w2 _ _
                (stored w2)
                (λ _ w3 h.
                  After-bind (apply_updates (aggregate_and_sort prepared.1)) (λ _. pure saved) w3 _
                    _ (apply_updates-Keeps t.id (aggregate_and_sort prepared.1) w3 h)
                    (λ _ w4 h. h))))
    where
      applying : List AccountUpdate → List Order → Action (List Order)
      applying updates saved = apply_updates (aggregate_and_sort updates) >> pure saved

      storing : List AccountUpdate → List Order → Action (List Order)
      storing updates saved = create_trades event.trades >> applying updates saved

      saving : List Order → List AccountUpdate → Action (List Order)
      saving orders updates =
          save_orders (order_ids event.taker_order_id event.trades) orders >>= storing updates

      stored :
          (w : World)
          → After (create_trades event.trades w) (λ _ w'. has_trade t.id w'.db.trades ≡ true)
      stored w =
          subst
            (λ trades. After (create_trades trades w) (λ _ w'. has_trade t.id w'.db.trades ≡ true))
            (sym first)
            (After-bind (create_trade t) (λ _. create_trades ts) w _ _ (create_trade-has t w)
              (λ _ w' h. create_trades-keeps t.id ts w' h))
