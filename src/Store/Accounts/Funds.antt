-- ===== src/Store/Accounts/Funds.antt =====
-- The account methods as actions: what is held of each currency after them.
use cyptocurrency_exchange_b.Prelude.{
  ℕ, suc, String, ◌≡◌, refl, Bool, ◌&&◌, Option, none, some, List, map, ◌==◌, Bool-cases, inl, inr,
}
use cyptocurrency_exchange_b.Prelude.Int.{ℤ, pos}
use cyptocurrency_exchange_b.Decimal.{DecimalLib, Decimal, less_than_or_equal}
use cyptocurrency_exchange_b.Engine.Types.{Uuid}
use cyptocurrency_exchange_b.Domain.Models.{Account}
use cyptocurrency_exchange_b.Store.World.{ok, Db, World, ◌>>=◌}
use cyptocurrency_exchange_b.Store.World.After.{After, After-bind, After-statement}
use cyptocurrency_exchange_b.Store.Accounts.{
  is_account, update_rows, rows_updated, run_update, update_accounts, credit, lock, unlock,
  update_balance, lock_funds, unlock_funds, some_row,
}
use cyptocurrency_exchange_b.Store.Accounts.Balances.{
  Rewrites, RewritesTo, update_rows-Rewrites, Updated, Rewrites-Updated, lock-held, unlock-held,
  key, IsUnique, HasKey, share, credit-Updated,
}

module _ ⦃lib : DecimalLib⦄ where
  -- The action rewrote the accounts, and no other table.
  pub record Rewrote (p : Account → Bool) (f : Account → Account) (before after : Db) (n : ℕ)
      : Type 0 where
    pub rewrites : Rewrites p f before.accounts after.accounts n
    pub others : after ≡ record before { accounts = after.accounts }

  pub update_accounts-Rewrote :
      (p : Account → Bool) (f : Account → Account) (w : World)
      → After (update_accounts p f w) (λ n w'. Rewrote p f w.db w'.db n)
  unfolding update_accounts
  update_accounts-Rewrote p f w =
      After-statement (run_update p f) w (λ n w'. Rewrote p f w.db w'.db n)
        (go (update_rows p f w.db.accounts) (update_rows-Rewrites p f w.db.accounts))
    where
      go :
          (r : Option (List Account × ℕ))
          → RewritesTo p f w.db.accounts r
          → After
              (
                (rows_updated r w.db).0,
                record w { db = (rows_updated r w.db).1; calls = suc w.calls },
              )
              (λ n w'. Rewrote p f w.db w'.db n)
      go none h = tt
      go (some (rows, n)) h = record { rewrites = h; others = refl }

  -- Money of each currency that a change of the accounts added, and no other table changed.
  pub record Moves (currency : String) (delta : ℤ) (before after : Db) : Type 0 where
    pub updated : Updated currency delta before.accounts after.accounts
    pub others : after ≡ record before { accounts = after.accounts }

  -- Unlocking moves money within an account, and never changes what is held of a currency.
  pub unlock_funds-Moves :
      (currency : String) (user_id : Uuid) (c : String) (amount : Decimal) (w : World)
      → After (unlock_funds user_id c amount w) (λ _ w'. Moves currency (pos 0) w.db w'.db)
  unfolding unlock_funds
  unlock_funds-Moves currency user_id c amount w =
      let at = w.env.unix_milli w.calls in
      let p = λ (a : Account). is_account user_id c a && less_than_or_equal amount a.locked in
      After-bind (update_accounts p (unlock amount at)) (λ _ w. (ok tt, w))
        (record w { calls = suc w.calls }) (λ n w'. Rewrote p (unlock amount at) w.db w'.db n)
        (λ _ w'. Moves currency (pos 0) w.db w'.db)
        (update_accounts-Rewrote p (unlock amount at) (record w { calls = suc w.calls }))
        (λ n w' r. record {
          updated =
              Rewrites-Updated p (unlock amount at) currency (pos 0) (λ a. refl)
                (unlock-held currency amount at) r.rewrites refl;
          others = r.others;
        })

  -- Locking does neither.
  pub lock_row-Moves :
      (currency : String) (user_id : Uuid) (c : String) (amount : Decimal) (at : ℕ) (w : World)
      → After
          ((update_accounts
                (λ a. is_account user_id c a && less_than_or_equal amount a.balance)
                (lock amount at)
              >>= some_row)
            w)
          (λ _ w'. Moves currency (pos 0) w.db w'.db)
  lock_row-Moves currency user_id c amount at w =
      let p = λ (a : Account). is_account user_id c a && less_than_or_equal amount a.balance in
      After-bind (update_accounts p (lock amount at)) some_row w
        (λ n w'. Rewrote p (lock amount at) w.db w'.db n)
        (λ _ w'. Moves currency (pos 0) w.db w'.db) (update_accounts-Rewrote p (lock amount at) w)
        (λ n w' r. elim (Bool-cases (n == 0)) [
          | inl nobody ↦ rw nobody tt
          | inr found ↦ rw found (record {
            updated =
                Rewrites-Updated p (lock amount at) currency (pos 0) (λ a. refl)
                  (lock-held currency amount at) r.rewrites refl;
            others = r.others;
          })
        ])

  pub lock_funds-Moves :
      (currency : String) (user_id : Uuid) (c : String) (amount : Decimal) (w : World)
      → After (lock_funds user_id c amount w) (λ _ w'. Moves currency (pos 0) w.db w'.db)
  unfolding lock_funds
  lock_funds-Moves currency user_id c amount w =
      lock_row-Moves currency user_id c amount (w.env.unix_milli w.calls)
        (record w { calls = suc w.calls })

  -- `UpdateBalance` adds the amount to what is held of its currency, where the user has its one
  -- account there.
  pub update_balance-Moves :
      (currency : String) (user_id : Uuid) (c : String) (amount : Decimal) (w : World)
      → IsUnique (map key w.db.accounts)
      → HasKey user_id c (map key w.db.accounts)
      → After
          (update_balance user_id c amount w)
          (λ _ w'. Moves currency (share currency c amount) w.db w'.db)
  unfolding update_balance
  update_balance-Moves currency user_id c amount w unique has =
      let at = w.env.unix_milli w.calls in
      After-bind (update_accounts (is_account user_id c) (credit amount at)) (λ _ w. (ok tt, w))
        (record w { calls = suc w.calls })
        (λ n w'. Rewrote (is_account user_id c) (credit amount at) w.db w'.db n)
        (λ _ w'. Moves currency (share currency c amount) w.db w'.db)
        (update_accounts-Rewrote (is_account user_id c) (credit amount at)
          (record w { calls = suc w.calls }))
        (λ n w' r. record {
          updated = credit-Updated currency c user_id amount at r.rewrites unique has;
          others = r.others;
        })

  -- A credit changes no other table, wherever it arrives.
  pub update_balance-others :
      (user_id : Uuid) (c : String) (amount : Decimal) (w : World)
      → After
          (update_balance user_id c amount w)
          (λ _ w'. w'.db ≡ record w.db { accounts = w'.db.accounts })
  unfolding update_balance
  update_balance-others user_id c amount w =
      let at = w.env.unix_milli w.calls in
      After-bind (update_accounts (is_account user_id c) (credit amount at)) (λ _ w. (ok tt, w))
        (record w { calls = suc w.calls })
        (λ n w'. Rewrote (is_account user_id c) (credit amount at) w.db w'.db n)
        (λ _ w'. w'.db ≡ record w.db { accounts = w'.db.accounts })
        (update_accounts-Rewrote (is_account user_id c) (credit amount at)
          (record w { calls = suc w.calls }))
        (λ n w' r. r.others)
