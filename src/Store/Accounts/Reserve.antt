-- ===== src/Store/Accounts/Reserve.antt =====
-- Whose funds a lock takes, and how much.
use cyptocurrency_exchange_b.Prelude.{
  ℕ, suc, ◌<◌, String, ◌≡◌, Bool, true, ◌&&◌, List, [], ◌∷◌, inl, inr, Bool-cases, eq_iff, ◌==◌,
  arith,
}
use cyptocurrency_exchange_b.Prelude.Int.{◌+ℤ◌, ◌-ℤ◌, ◌≤ℤ◌}
use cyptocurrency_exchange_b.Decimal.{DecimalLib, Decimal, value, less_than_or_equal}
use cyptocurrency_exchange_b.Decimal.Laws.{less_than_or_equal→le}
use cyptocurrency_exchange_b.Engine.Types.{Uuid}
use cyptocurrency_exchange_b.Domain.Models.{Account}
use cyptocurrency_exchange_b.Store.World.{World}
use cyptocurrency_exchange_b.Store.World.After.{After, After-bind}
use cyptocurrency_exchange_b.Store.Accounts.{
  is_account, update_accounts, lock, some_row, lock_funds,
}
use cyptocurrency_exchange_b.Store.Accounts.Balances.{Rewrites, end, kept, set}
use cyptocurrency_exchange_b.Store.Accounts.Funds.{Rewrote, update_accounts-Rewrote}

module _ ⦃lib : DecimalLib⦄ (user_id : Uuid) (currency : String) (amount : Decimal) where
  -- An account of the user in the currency that had the amount available, and now has it locked.
  pub record IsReserved (a a' : Account) : Type 0 where
    pub user : a.user_id ≡ user_id
    pub currency_lem : a.currency ≡ currency
    pub enough : value amount ≤ℤ value a.balance
    pub balance : value a'.balance ≡ value a.balance -ℤ value amount
    pub locked : value a'.locked ≡ value a.locked +ℤ value amount

  -- Rows of which some are reserved, and every other one is as it was.
  pub data Reserves : List Account → List Account → ℕ → Type 0 where
    none_left : Reserves [] [] 0
    other :
        (a : Account) (rows rows' : List Account) (n : ℕ)
        → Reserves rows rows' n
        → Reserves (a ∷ rows) (a ∷ rows') n
    reserved :
        (a a' : Account) (rows rows' : List Account) (n : ℕ)
        → IsReserved a a'
        → Reserves rows rows' n
        → Reserves (a ∷ rows) (a' ∷ rows') (suc n)

  -- At least one is.
  abbrev pub HasReserved : List Account → List Account → Type 0
  HasReserved rows rows' = (n : ℕ) × (0 < n) × Reserves rows rows' n

  abbrev can_pay : Account → Bool
  can_pay a = is_account user_id currency a && less_than_or_equal amount a.balance

  lock-IsReserved : (at : ℕ) (a : Account) → can_pay a ≡ true → IsReserved a (lock amount at a)
  lock-IsReserved at a hit = record {
    user = ground (arith, hit);
    currency_lem = ground (arith, hit, eq_iff a.currency currency);
    enough = less_than_or_equal→le amount a.balance (ground (arith, hit));
    balance = lib.value-sub a.balance amount;
    locked = lib.value-add a.locked amount;
  }

  Rewrites-Reserves :
      (at : ℕ) {rows rows' : List Account} {n : ℕ}
      → Rewrites can_pay (lock amount at) rows rows' n
      → Reserves rows rows' n
  Rewrites-Reserves at end = none_left
  Rewrites-Reserves at (kept a rows rows' n miss r) = other a rows rows' n (Rewrites-Reserves at r)
  Rewrites-Reserves at (set a rows rows' n hit passes r) =
      reserved a (lock amount at a) rows rows' n (lock-IsReserved at a hit) (Rewrites-Reserves at r)

  -- A lock that went through has taken the amount from an account of the user in the currency.
  pub lock_funds-HasReserved :
      (w : World)
      → After
          (lock_funds user_id currency amount w)
          (λ _ w'. HasReserved w.db.accounts w'.db.accounts)
  unfolding lock_funds
  lock_funds-HasReserved w =
      let at = w.env.unix_milli w.calls in
      let w1 = record w { calls = suc w.calls } in
      After-bind (update_accounts can_pay (lock amount at)) some_row w1
        (λ n w'. Rewrote can_pay (lock amount at) w.db w'.db n)
        (λ _ w'. HasReserved w.db.accounts w'.db.accounts)
        (update_accounts-Rewrote can_pay (lock amount at) w1)
        (λ n w' r. elim (Bool-cases (n == 0)) [
          | inl nobody ↦ rw nobody tt
          | inr found ↦ rw found (n, ground (arith, found), Rewrites-Reserves at r.rewrites)
        ])
