-- ===== src/OrderService/Placing/Batch/Totals.antt =====
-- What a batch asks to lock, and what its messages say is locked.
use cyptocurrency_exchange_b.Prelude.{
  ℕ, suc, String, ◌≡◌, refl, inl, inr, ap, ◌∙◌, Bool, true, false, ◌&&◌, Option, none, some, List,
  [], ◌∷◌, Bool-cases, str_eq, eq_iff, ◌==◌, if◌then◌else◌, arith,
}
use cyptocurrency_exchange_b.Prelude.Int.{ℤ, pos, ◌+ℤ◌, eq_of_parts, parts_of_eq}
use cyptocurrency_exchange_b.Decimal.{DecimalLib, Decimal, value, add, zero_dec, less_than_or_equal}
use cyptocurrency_exchange_b.Decimal.Laws.{decimal_sums}
use cyptocurrency_exchange_b.Engine.Types.{Uuid, OrderBookSnapshot}
use cyptocurrency_exchange_b.Domain.Models.{Order}
use cyptocurrency_exchange_b.Domain.Events.{Event, order_placed}
use cyptocurrency_exchange_b.Store.World.{Result, ok, err, World, Message, Action, pure, ◌>>=◌}
use cyptocurrency_exchange_b.Store.World.After.{After, After-bind, After-weaken}
use cyptocurrency_exchange_b.OrderService.Placing.{
  add_lock, prepare_batch, as_new, placed_draft, lifted, normalized, bad_price,
  calculate_lock_amount,
}
use cyptocurrency_exchange_b.OrderService.Placing.Batch.Prepared.{Locks, first_of}

module _ ⦃lib : DecimalLib⦄ (user_id : Uuid) (currency : String) where
  -- An amount that counts for the user and the currency, or nothing.
  abbrev pub counted : Uuid → String → Decimal → ℤ
  counted u c amount = if u == user_id && str_eq c currency then value amount else pos 0

  -- What the locks ask for from the user's account in the currency.
  abbrev pub total : Locks → ℤ
  total [] = pos 0
  total ((u, (c, amount)) ∷ locks) = counted u c amount +ℤ total locks

  -- What a message says is locked there.
  abbrev pub said_locked : Event → ℤ
  said_locked (order_placed e) = counted e.user_id e.locked_currency e.amount_locked
  said_locked _ = pos 0

  abbrev pub announced_total : List Message → ℤ
  announced_total [] = pos 0
  announced_total (m ∷ ms) = said_locked m.payload +ℤ announced_total ms

  counted-add :
      (u : Uuid) (c : String) (a b : Decimal)
      → counted u c (add a b) ≡ counted u c a +ℤ counted u c b
  counted-add u c a b = chosen (u == user_id && str_eq c currency)
    where
      chosen :
          (t : Bool)
          → (if t then value (add a b) else pos 0)
            ≡ (if t then value a else pos 0) +ℤ (if t then value b else pos 0)
      chosen true = eq_of_parts _ _ (omega decimal_sums)
      chosen false = eq_of_parts _ _ (omega decimal_sums)

  counted-zero : (u : Uuid) (c : String) → counted u c zero_dec ≡ pos 0
  counted-zero u c = chosen (u == user_id && str_eq c currency)
    where
      chosen : (t : Bool) → (if t then value zero_dec else pos 0) ≡ pos 0
      chosen true = eq_of_parts _ _ (omega decimal_sums)
      chosen false = refl

  add_lock-total :
      (u : Uuid) (c : String) (a : Decimal) (locks : Locks)
      → total (add_lock u c a locks) ≡ counted u c a +ℤ total locks
  add_lock-total u c a [] = eq_of_parts _ _ (
      omega (
        decimal_sums,
        parts_of_eq _ _ (counted-add u c zero_dec a),
        parts_of_eq _ _ (counted-zero u c),
      ))
  add_lock-total u c a ((v, (d, sum)) ∷ locks) =
      chosen (v == u && str_eq d c) refl (add_lock-total u c a locks)
    where
      chosen :
          (t : Bool)
          → (v == u && str_eq d c) ≡ t
          → total (add_lock u c a locks) ≡ counted u c a +ℤ total locks
          → total (if t then (v, (d, add sum a)) ∷ locks else (v, (d, sum)) ∷ add_lock u c a locks)
            ≡ counted u c a +ℤ (counted v d sum +ℤ total locks)
      chosen true same ih =
          let same_user : v ≡ u = ground (arith) in
          let same_currency : d ≡ c = ground (arith, eq_iff d c) in
          let here : counted v d a ≡ counted u c a =
            ap (λ x. counted x d a) same_user ∙ ap (λ x. counted u x a) same_currency in
          eq_of_parts _ _
            (omega (decimal_sums, parts_of_eq _ _ (counted-add v d sum a), parts_of_eq _ _ here))
      chosen false other ih = eq_of_parts _ _ (omega (decimal_sums, parts_of_eq _ _ ih))

  abbrev Counts : Locks → Locks × (List Order × List Message) → World → Type 0
  Counts locks r w' = total r.0 ≡ total locks +ℤ announced_total r.1.1

  first_of-Counts :
      (at : ℕ) (locks : Locks) (order : Order)
      (others : Locks → Action (Locks × (List Order × List Message)))
      (r : Result (String × Decimal)) (w : World)
      → ((ls : Locks) (w' : World) → After (others ls w') (Counts ls))
      → After ((lifted r >>= first_of order at locks others) w) (Counts locks)
  first_of-Counts at locks order others (err e) w ih = tt
  first_of-Counts at locks order others (ok (c, amount)) w ih =
      let w1 = record w { calls = suc w.calls } in
      let id : ℕ = elim (w.env.new_v7 w.calls) [ none ↦ 0 | some id ↦ id ] in
      let created = as_new id at order in
      let locks' = add_lock order.user_id c amount locks in
      After-bind (others locks')
        (λ r. pure (r.0, (created ∷ r.1.0, placed_draft created c amount ∷ r.1.1))) w1
        (Counts locks') (Counts locks) (ih locks' w1)
        (λ r w2 h. eq_of_parts _ _ (
          omega (
            decimal_sums,
            parts_of_eq _ _ h,
            parts_of_eq _ _ (add_lock-total order.user_id c amount locks),
          )))

  prepare_batch-Counts :
      (cached : String → Option OrderBookSnapshot) (at : ℕ) (locks : Locks) (requests : List Order)
      (w : World)
      → After (prepare_batch cached at locks requests w) (Counts locks)
  unfolding prepare_batch
  prepare_batch-Counts cached at locks [] w = eq_of_parts _ _ (omega decimal_sums)
  prepare_batch-Counts cached at locks (request ∷ requests) w =
      let order = normalized request in
      let first =
        first_of-Counts at locks order (λ ls. prepare_batch cached at ls requests)
          (calculate_lock_amount cached order) w
          (λ ls w'. prepare_batch-Counts cached at ls requests w') in
      elim (Bool-cases (less_than_or_equal order.quantity zero_dec)) [
        | inl empty ↦ rw empty tt
        | inr wanted ↦ elim (Bool-cases (bad_price order)) [
          | inl unpriced ↦ rw (wanted, unpriced) tt
          | inr has_price ↦ rw (wanted, has_price) first
        ]
      ]

  -- Where the orders of a batch pass their tests, what the batch asks to lock of a user in a currency
  -- is the sum of what the messages for the user's orders say is locked in it.
  pub prepare_batch-totals :
      (cached : String → Option OrderBookSnapshot) (at : ℕ) (requests : List Order) (w : World)
      → After (prepare_batch cached at [] requests w) (λ r _. total r.0 ≡ announced_total r.1.1)
  prepare_batch-totals cached at requests w =
      After-weaken (prepare_batch cached at [] requests w) (Counts []) _
        (prepare_batch-Counts cached at [] requests w)
        (λ r w' h. eq_of_parts _ _ (omega (decimal_sums, parts_of_eq _ _ h)))
