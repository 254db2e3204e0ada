-- ===== src/OrderService/Settlement/Writes.antt =====
-- What the writes of the settlement transaction add to the accounts, in each currency.
use cyptocurrency_exchange_b.Prelude.{
  suc, String, ◌≡◌, refl, inl, inr, ap, sym, subst, ◌∙◌, true, false, Option, none, some, List, [],
  ◌∷◌, map, Bool-cases, All, arith,
}
use cyptocurrency_exchange_b.Prelude.Int.{pos, ℤ, pos_part, neg_part, eq_of_parts}
use cyptocurrency_exchange_b.Decimal.{DecimalLib, zero_dec, is_zero, greater_than}
use cyptocurrency_exchange_b.Decimal.Laws.{decimal_sums, eq→is_zero}
use cyptocurrency_exchange_b.Engine.Types.{Uuid, Trade}
use cyptocurrency_exchange_b.Domain.Models.{Order}
use cyptocurrency_exchange_b.Store.World.{
  Error, missing_order, Result, ok, World, Action, pure, now, or_raise, ◌>>=◌, ◌>>◌,
}
use cyptocurrency_exchange_b.Store.World.After.{After, After-bind, After-weaken, After-statement}
use cyptocurrency_exchange_b.Store.Accounts.{update_balance, unlock_funds}
use cyptocurrency_exchange_b.Store.Accounts.Balances.{key, Updated, IsUnique}
use cyptocurrency_exchange_b.Store.Accounts.Changes.{Updated-refl, Updated-trans}
use cyptocurrency_exchange_b.Store.Accounts.Funds.{unlock_funds-Moves, update_balance-Moves}
use cyptocurrency_exchange_b.Store.Orders.{find_order, update_order, write_order}
use cyptocurrency_exchange_b.Store.Trades.{create_trade, has_trade}
use cyptocurrency_exchange_b.OrderService.Settlement.{
  apply_unlock, apply_amount, apply_updates, save_orders, create_trades,
}
use cyptocurrency_exchange_b.OrderService.Updates.{AccountUpdate}
use cyptocurrency_exchange_b.OrderService.Settlement.Net.{net, amount_in, share-zero}
use cyptocurrency_exchange_b.OrderService.Settlement.Backed.{IsBacked}

module _ ⦃lib : DecimalLib⦄ where
  abbrev pub Gains : String → ℤ → World → Result (Unit {0}) × World → Type 0
  Gains c d w r = After r (λ _ w'. Updated c d w.db.accounts w'.db.accounts)

  apply_unlock-Gains :
      (c : String) (up : AccountUpdate) (w : World) → Gains c (pos 0) w (apply_unlock up w)
  apply_unlock-Gains c up w = elim (Bool-cases (greater_than up.unlock zero_dec)) [
    | inl unlocks ↦ rw unlocks (
        After-weaken (unlock_funds up.user_id up.currency up.unlock w) _ _
          (unlock_funds-Moves c up.user_id up.currency up.unlock w) (λ _ w' m. m.updated))
    | inr stays ↦ rw stays (Updated-refl c w.db.accounts)
  ]

  nothing_in : (c : String) (up : AccountUpdate) → is_zero up.amount ≡ true → amount_in c up ≡ pos 0
  nothing_in c up z = share-zero c up.currency up.amount z

  apply_amount-Gains :
      (c : String) (up : AccountUpdate) (w : World)
      → IsUnique (map key w.db.accounts)
      → IsBacked (map key w.db.accounts) up
      → Gains c (amount_in c up) w (apply_amount up w)
  apply_amount-Gains c up w unique backed = elim (Bool-cases (is_zero up.amount)) [
    | inl zero ↦ rw zero (
        subst (λ d. Updated c d w.db.accounts w.db.accounts) (sym (nothing_in c up zero))
          (Updated-refl c w.db.accounts))
    | inr amount ↦ rw amount (moved amount backed)
  ]
    where
      moved :
          is_zero up.amount ≡ false
          → IsBacked (map key w.db.accounts) up
          → After
              (update_balance up.user_id up.currency up.amount w)
              (λ _ w'. Updated c (amount_in c up) w.db.accounts w'.db.accounts)
      moved amount (inl has) =
          After-weaken (update_balance up.user_id up.currency up.amount w) _ _
            (update_balance-Moves c up.user_id up.currency up.amount w unique has)
            (λ _ w' m. m.updated)
      moved amount (inr zero) =
          ground (arith, eq→is_zero up.amount (ap pos_part zero ∙ sym (ap neg_part zero)), amount)

  pub apply_updates-Gains :
      (c : String) (ups : List AccountUpdate) (w : World)
      → IsUnique (map key w.db.accounts)
      → All (IsBacked (map key w.db.accounts)) ups
      → Gains c (net c ups) w (apply_updates ups w)
  unfolding apply_updates
  apply_updates-Gains c [] w unique backed = Updated-refl c w.db.accounts
  apply_updates-Gains c (up ∷ ups) w unique backed =
      After-bind (apply_unlock up) (λ _. apply_amount up >> apply_updates ups) w
        (λ _ w'. Updated c (pos 0) w.db.accounts w'.db.accounts)
        (λ _ w'. Updated c (net c (up ∷ ups)) w.db.accounts w'.db.accounts)
        (apply_unlock-Gains c up w)
        (λ _ w1 u.
          After-bind (apply_amount up) (λ _. apply_updates ups) w1
            (λ _ w'. Updated c (amount_in c up) w1.db.accounts w'.db.accounts)
            (λ _ w'. Updated c (net c (up ∷ ups)) w.db.accounts w'.db.accounts)
            (apply_amount-Gains c up w1 (subst IsUnique (sym u.keys) unique)
              (subst (λ ks. IsBacked ks up) (sym u.keys) backed.0))
            (λ _ w2 v.
              After-weaken (apply_updates ups w2) _ _
                (apply_updates-Gains c ups w2 (subst IsUnique (sym (v.keys ∙ u.keys)) unique)
                  (subst (λ ks. All (IsBacked ks) ups) (sym (v.keys ∙ u.keys)) backed.1))
                (λ _ w3 r. joined w1 w2 w3 u v r)))
    where
      joined :
          (w1 w2 w3 : World)
          → Updated c (pos 0) w.db.accounts w1.db.accounts
          → Updated c (amount_in c up) w1.db.accounts w2.db.accounts
          → Updated c (net c ups) w2.db.accounts w3.db.accounts
          → Updated c (net c (up ∷ ups)) w.db.accounts w3.db.accounts
      joined w1 w2 w3 u v r =
          subst (λ d. Updated c d w.db.accounts w3.db.accounts)
            (eq_of_parts _ _ (omega decimal_sums))
            (Updated-trans c _ _ _ _ _ u (Updated-trans c _ _ _ _ _ v r))

  -- A write to another table.
  abbrev pub Leaves : {A : Type 0} → World → Result A × World → Type 0
  Leaves w r = After r (λ _ w'. w'.db.accounts ≡ w.db.accounts)

  pub update_order-Leaves : (o : Order) (w : World) → Leaves w (update_order o w)
  unfolding update_order
  update_order-Leaves o w =
      After-statement (λ db. (ok tt, record db { orders = write_order o db.orders })) w
        (λ _ w'. w'.db.accounts ≡ w.db.accounts) refl

  create_trade-Leaves : (t : Trade) (w : World) → Leaves w (create_trade t w)
  unfolding create_trade
  create_trade-Leaves t w = elim (Bool-cases (w.env.fails w.calls)) [
    | inl down ↦ rw down tt
    | inr up ↦ elim (Bool-cases (has_trade t.id w.db.trades)) [
      | inl twice ↦ rw (up, twice) tt
      | inr once ↦ rw (up, once) refl
    ]
  ]

  pub Leaves-bind :
      {A B : Type 0} (m : Action A) (f : A → Action B) (w : World)
      → Leaves w (m w)
      → ((a : A) (w' : World) → Leaves w' (f a w'))
      → Leaves w ((m >>= f) w)
  Leaves-bind m f w h k =
      After-bind m f w (λ _ w'. w'.db.accounts ≡ w.db.accounts)
        (λ _ w'. w'.db.accounts ≡ w.db.accounts) h
        (λ a w' same. After-weaken (f a w') _ _ (k a w') (λ _ w'' same'. same' ∙ same))

  or_raise-Leaves : {A : Type 0} (x : Option A) (e : Error) (w : World) → Leaves w (or_raise x e w)
  or_raise-Leaves none e w = tt
  or_raise-Leaves (some a) e w = refl

  pub save_orders-Leaves :
      (ids : List Uuid) (orders : List Order) (w : World) → Leaves w (save_orders ids orders w)
  unfolding save_orders
  save_orders-Leaves [] orders w = refl
  save_orders-Leaves (id ∷ ids) orders w =
      Leaves-bind (or_raise (find_order id orders) missing_order)
        (λ o. now >>= λ at. written (record o { updated_at = at })) w
        (or_raise-Leaves (find_order id orders) missing_order w)
        (λ o w'.
          written-Leaves (save_orders-Leaves ids orders)
            (record o { updated_at = w'.env.unix_milli w'.calls })
            (record w' { calls = suc w'.calls }))
    where
      written : Order → Action (List Order)
      written o = update_order o >> (save_orders ids orders >>= λ rest. pure (o ∷ rest))

      written-Leaves :
          ((w : World) → Leaves w (save_orders ids orders w))
          → (o : Order) (w : World) → Leaves w (written o w)
      written-Leaves more o w =
          Leaves-bind (update_order o) (λ _. save_orders ids orders >>= λ rest. pure (o ∷ rest)) w
            (update_order-Leaves o w)
            (λ _ w'.
              Leaves-bind (save_orders ids orders) (λ rest. pure (o ∷ rest)) w' (more w')
                (λ _ _. refl))

  pub create_trades-Leaves : (ts : List Trade) (w : World) → Leaves w (create_trades ts w)
  unfolding create_trades
  create_trades-Leaves [] w = refl
  create_trades-Leaves (t ∷ ts) w =
      Leaves-bind (create_trade t) (λ _. create_trades ts) w (create_trade-Leaves t w)
        (λ _ w'. create_trades-Leaves ts w')
