-- ===== src/Store/Accounts.antt =====
-- internal/repository/account_repository.go over the `accounts` table.
pub mod Balances
pub mod Funds
pub mod Changes
pub mod Locking
pub mod Reserve
use cyptocurrency_exchange_b.Prelude.{
  ℕ, suc, String, Bool, true, false, not, ◌&&◌, ◌||◌, Option, none, some, List, [], ◌∷◌, ◌++◌, ltb,
  str_eq, str_lt, ◌==◌, if◌then◌else◌,
}
use cyptocurrency_exchange_b.Decimal.{
  DecimalLib, Decimal, zero_dec, add, sub, less_than, less_than_or_equal,
}
use cyptocurrency_exchange_b.Engine.Types.{Uuid}
use cyptocurrency_exchange_b.Engine.OrderBook.{slice_stable}
use cyptocurrency_exchange_b.Domain.Models.{User, Account}
use cyptocurrency_exchange_b.Store.World.{
  Error, db_error, no_rows, insufficient_funds, Result, ok, err, Db, Action, statement, now, ◌>>=◌,
  ◌>>◌,
}

module _ ⦃lib : DecimalLib⦄ where
  -- `user_id = $2 AND currency = $3`
  abbrev pub is_account : Uuid → String → Account → Bool
  is_account user_id currency a = a.user_id == user_id && str_eq a.currency currency

  -- The columns' constraints, `CHECK (balance >= 0)` and `CHECK (locked >= 0)`.
  abbrev pub passes_checks : Account → Bool
  passes_checks a = not (less_than a.balance zero_dec) && not (less_than a.locked zero_dec)

  -- An UPDATE: the rows that satisfy the condition are rewritten, and counted; `none` if a rewritten
  -- row breaks a constraint.
  unfoldable pub update_rows :
      (Account → Bool) → (Account → Account) → List Account → Option (List Account × ℕ)
  update_rows applies set [] = some ([], 0)
  update_rows applies set (a ∷ rows) = elim (update_rows applies set rows) [
    | none ↦ none
    | some (rows', n) ↦
        if applies a
        then (if passes_checks (set a) then some (set a ∷ rows', suc n) else none)
        else some (a ∷ rows', n)
  ]

  abbrev pub rows_updated : Option (List Account × ℕ) → Db → Result ℕ × Db
  rows_updated none db = (err db_error, db)
  rows_updated (some (rows, n)) db = (ok n, record db { accounts = rows })

  abbrev pub run_update : (Account → Bool) → (Account → Account) → Db → Result ℕ × Db
  run_update applies set db = rows_updated (update_rows applies set db.accounts) db

  unfoldable pub update_accounts : (Account → Bool) → (Account → Account) → Action ℕ
  unfolding update_rows
  update_accounts applies set = statement (run_update applies set)

  pub find_account : Uuid → String → List Account → Option Account
  find_account user_id currency [] = none
  find_account user_id currency (a ∷ rows) =
      if is_account user_id currency a then some a else find_account user_id currency rows

  pub get_account : Uuid → String → Action Account
  unfolding find_account
  get_account user_id currency = statement λ db. elim (find_account user_id currency db.accounts) [
    | none ↦ (err no_rows, db)
    | some a ↦ (ok a, db)
  ]

  -- the primary key, and `user_id ... REFERENCES users(id)`
  abbrev pub has_account_id : Uuid → List Account → Bool
  has_account_id id [] = false
  has_account_id id (a ∷ rows) = a.id == id || has_account_id id rows

  abbrev pub has_user : Uuid → List User → Bool
  has_user id [] = false
  has_user id (u ∷ rows) = u.id == id || has_user id rows

  abbrev pub insert_account : Account → Option Account → Db → Result (Unit {0}) × Db
  insert_account account (some _) db = (ok tt, db)
  insert_account account none db =
      if has_account_id account.id db.accounts || not (has_user account.user_id db.users)
      then (err db_error, db)
      else (ok tt, record db { accounts = db.accounts ++ account ∷ [] })

  -- `ON CONFLICT (user_id, currency) DO NOTHING`: the CHECK constraints come before it.
  pub create_account : Account → Action (Unit {0})
  unfolding find_account
  create_account account = statement λ db.
      let found = find_account account.user_id account.currency db.accounts in
      if passes_checks account then insert_account account found db else (err db_error, db)

  abbrev pub credit : Decimal → ℕ → Account → Account
  credit amount at a = record a { balance = add a.balance amount; updated_at = at }

  abbrev pub lock : Decimal → ℕ → Account → Account
  lock amount at a = record a {
    balance = sub a.balance amount;
    locked = add a.locked amount;
    updated_at = at;
  }

  abbrev pub unlock : Decimal → ℕ → Account → Account
  unlock amount at a = record a {
    balance = add a.balance amount;
    locked = sub a.locked amount;
    updated_at = at;
  }

  -- No row to update is no error.
  unfoldable pub update_balance : Uuid → String → Decimal → Action (Unit {0})
  unfolding update_accounts
  update_balance user_id currency amount = do
    at ← now
    _ ← update_accounts (is_account user_id currency) (credit amount at)
    λ w. (ok tt, w)

  abbrev pub some_row : ℕ → Action (Unit {0})
  some_row n w = if n == 0 then (err insufficient_funds, w) else (ok tt, w)

  unfoldable pub lock_funds : Uuid → String → Decimal → Action (Unit {0})
  unfolding update_accounts
  lock_funds user_id currency amount = do
    at ← now
    n ←
        update_accounts (λ a. is_account user_id currency a && less_than_or_equal amount a.balance)
          (lock amount at)
    some_row n

  -- The loop of `BatchLockFunds`: one UPDATE for each key, at one time.
  pub lock_each : ℕ → List (Uuid × (String × Decimal)) → Action (Unit {0})
  unfolding update_accounts
  lock_each at [] = λ w. (ok tt, w)
  lock_each at ((user_id, (currency, amount)) ∷ locks) = do
    n ←
        update_accounts (λ a. is_account user_id currency a && less_than_or_equal amount a.balance)
          (lock amount at)
    some_row n
    lock_each at locks

  -- users in the order of their IDs' texts, which is that of the numbers; then by currency
  abbrev pub lock_less : Uuid × (String × Decimal) → Uuid × (String × Decimal) → Bool
  lock_less (u, (c, _)) (v, (d, _)) = if u == v then str_lt c d else ltb u v

  unfoldable pub batch_lock_funds : List (Uuid × (String × Decimal)) → Action (Unit {0})
  unfolding lock_each
  batch_lock_funds locked_funds = do at ← now; lock_each at (slice_stable lock_less locked_funds)

  -- Neither is it here, also where less is locked than the amount.
  unfoldable pub unlock_funds : Uuid → String → Decimal → Action (Unit {0})
  unfolding update_accounts
  unlock_funds user_id currency amount = do
    at ← now
    _ ←
        update_accounts (λ a. is_account user_id currency a && less_than_or_equal amount a.locked)
          (unlock amount at)
    λ w. (ok tt, w)

  pub of_user : Uuid → List Account → List Account
  of_user user_id [] = []
  of_user user_id (a ∷ rows) =
      let rest = of_user user_id rows in if a.user_id == user_id then a ∷ rest else rest

  pub get_accounts_by_user : Uuid → Action (List Account)
  unfolding of_user
  get_accounts_by_user user_id = statement λ db. (ok (of_user user_id db.accounts), db)
