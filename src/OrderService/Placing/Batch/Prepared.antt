-- ===== src/OrderService/Placing/Batch/Prepared.antt =====
-- The orders and messages that a batch is made into, before its transaction.
use cyptocurrency_exchange_b.Prelude.{
  ℕ, suc, String, ◌≡◌, refl, inl, inr, false, Option, none, some, List, [], ◌∷◌, map, Bool-cases,
}
use cyptocurrency_exchange_b.Decimal.{DecimalLib, Decimal, zero_dec, less_than_or_equal}
use cyptocurrency_exchange_b.Engine.Types.{Uuid, OrderBookSnapshot}
use cyptocurrency_exchange_b.Domain.Models.{Order}
use cyptocurrency_exchange_b.Domain.Events.{Topic, Event, orders}
use cyptocurrency_exchange_b.Store.World.{Result, ok, err, Db, World, Message, Action, pure, ◌>>=◌}
use cyptocurrency_exchange_b.Store.World.After.{After, After-bind, bind-reads}
use cyptocurrency_exchange_b.Store.Outbox.{uuid_or_zero}
use cyptocurrency_exchange_b.OrderService.Placing.{
  calculate_lock_amount, normalized, as_new, placed_draft, lifted, bad_price, add_lock,
  prepare_batch,
}
use cyptocurrency_exchange_b.OrderService.Placing.Batch.Rows.{says}
use cyptocurrency_exchange_b.OrderService.Placing.Placed.{announcement}

module _ ⦃lib : DecimalLib⦄ where
  abbrev pub Locks : Type 0
  Locks = List (Uuid × (String × Decimal))

  -- The request is valid, the order is made of it, and the message announces the order, with what is
  -- locked for it.
  pub record Made (cached : String → Option OrderBookSnapshot) (at : ℕ) (request order : Order)
      (said : Topic × Event) : Type 0 where
    pub id : Uuid
    pub lock : String × Decimal
    pub is_new : order ≡ as_new id at (normalized request)
    pub priced : calculate_lock_amount cached (normalized request) ≡ ok lock
    pub wanted : less_than_or_equal (normalized request).quantity zero_dec ≡ false
    pub has_price : bad_price (normalized request) ≡ false
    pub announced : said ≡ (orders, announcement order lock.0 lock.1)

  -- One order and one message for each request, in the order of the requests.
  abbrev pub AllMade :
      (String → Option OrderBookSnapshot)
      → ℕ
      → List Order
      → List Order
      → List (Topic × Event)
      → Type 0
  AllMade cached at [] [] [] = Unit {0}
  AllMade cached at (r ∷ rs) (o ∷ os) (m ∷ ms) = Made cached at r o m × AllMade cached at rs os ms
  AllMade cached at _ _ _ = ⊥

  abbrev pub IsPrepared :
      (String → Option OrderBookSnapshot)
      → ℕ
      → List Order
      → World
      → Locks × (List Order × List Message)
      → World
      → Type 0
  IsPrepared cached at requests w r w' =
      AllMade cached at requests r.1.0 (map says r.1.1) × (w'.db ≡ w.db)

  -- One request, and then the others.
  abbrev pub first_of :
      Order
      → ℕ
      → Locks
      → (Locks → Action (Locks × (List Order × List Message)))
      → String × Decimal
      → Action (Locks × (List Order × List Message))
  first_of order at locks others (currency, amount) = do
    id ← uuid_or_zero
    let created = as_new id at order
    (locks', (created_all, msgs)) ← others (add_lock order.user_id currency amount locks)
    pure (locks', (created ∷ created_all, placed_draft created currency amount ∷ msgs))

  first_of-IsPrepared :
      (cached : String → Option OrderBookSnapshot) (at : ℕ) (locks : Locks) (request : Order)
      (requests : List Order) (others : Locks → Action (Locks × (List Order × List Message)))
      (r : Result (String × Decimal)) (w : World)
      → ((ls : Locks) (w' : World) → After (others ls w') (IsPrepared cached at requests w'))
      → calculate_lock_amount cached (normalized request) ≡ r
      → less_than_or_equal (normalized request).quantity zero_dec ≡ false
      → bad_price (normalized request) ≡ false
      → After
          ((lifted r >>= first_of (normalized request) at locks others) w)
          (IsPrepared cached at (request ∷ requests) w)
  first_of-IsPrepared cached at locks request requests others (err e) w ih priced wanted has_price =
      tt
  first_of-IsPrepared cached at locks request requests others (ok (currency, amount)) w ih priced
        wanted has_price =
      let w1 = record w { calls = suc w.calls } in
      let order = normalized request in
      let id : ℕ = elim (w.env.new_v7 w.calls) [ none ↦ 0 | some id ↦ id ] in
      let created = as_new id at order in
      After-bind (others (add_lock order.user_id currency amount locks))
        (λ r. pure (r.0, (created ∷ r.1.0, placed_draft created currency amount ∷ r.1.1))) w1
        (IsPrepared cached at requests w1) (IsPrepared cached at (request ∷ requests) w)
        (ih (add_lock order.user_id currency amount locks) w1)
        (λ r w2 h. (
          (
            record {
              id = id;
              lock = (currency, amount);
              is_new = refl;
              priced = priced;
              wanted = wanted;
              has_price = has_price;
              announced = refl;
            },
            h.0,
          ),
          h.1,
        ))

  pub prepare_batch-IsPrepared :
      (cached : String → Option OrderBookSnapshot) (at : ℕ) (locks : Locks) (requests : List Order)
      (w : World)
      → After (prepare_batch cached at locks requests w) (IsPrepared cached at requests w)
  unfolding prepare_batch
  prepare_batch-IsPrepared cached at locks [] w = (tt, refl)
  prepare_batch-IsPrepared cached at locks (request ∷ requests) w =
      let order = normalized request in
      let next = λ (ls : Locks). prepare_batch cached at ls requests in
      elim (Bool-cases (less_than_or_equal order.quantity zero_dec)) [
        | inl empty ↦ rw empty tt
        | inr wanted ↦ elim (Bool-cases (bad_price order)) [
          | inl unpriced ↦ rw (wanted, unpriced) tt
          | inr has_price ↦
              rw (wanted, has_price)
                (first_of-IsPrepared cached at locks request requests next
                  (calculate_lock_amount cached order) w
                  (λ ls w'. prepare_batch-IsPrepared cached at ls requests w') refl wanted
                  has_price)
        ]
      ]

  abbrev Same : Db → Db → Type 0
  Same before after = after ≡ before

  first_of-reads :
      (at : ℕ) (locks : Locks) (order : Order)
      (others : Locks → Action (Locks × (List Order × List Message)))
      (r : Result (String × Decimal)) (w : World)
      → ((ls : Locks) (w' : World) → (others ls w').1.db ≡ w'.db)
      → ((lifted r >>= first_of order at locks others) w).1.db ≡ w.db
  first_of-reads at locks order others (err e) w ih = refl
  first_of-reads at locks order others (ok (currency, amount)) w ih =
      let w1 = record w { calls = suc w.calls } in
      let id : ℕ = elim (w.env.new_v7 w.calls) [ none ↦ 0 | some id ↦ id ] in
      let created = as_new id at order in
      bind-reads Same (others (add_lock order.user_id currency amount locks))
        (λ r. pure (r.0, (created ∷ r.1.0, placed_draft created currency amount ∷ r.1.1))) w1
        (ih (add_lock order.user_id currency amount locks) w1) refl (λ _ w2 same. refl)

  -- Preparing a batch only reads.
  pub prepare_batch-reads :
      (cached : String → Option OrderBookSnapshot) (at : ℕ) (locks : Locks) (requests : List Order)
      (w : World)
      → (prepare_batch cached at locks requests w).1.db ≡ w.db
  unfolding prepare_batch
  prepare_batch-reads cached at locks [] w = refl
  prepare_batch-reads cached at locks (request ∷ requests) w =
      let order = normalized request in
      let first =
        first_of-reads at locks order (λ ls. prepare_batch cached at ls requests)
          (calculate_lock_amount cached order) w
          (λ ls w'. prepare_batch-reads cached at ls requests w') in
      elim (Bool-cases (less_than_or_equal order.quantity zero_dec)) [
        | inl empty ↦ rw empty refl
        | inr wanted ↦ elim (Bool-cases (bad_price order)) [
          | inl unpriced ↦ rw (wanted, unpriced) refl
          | inr has_price ↦ rw (wanted, has_price) first
        ]
      ]
