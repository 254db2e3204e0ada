-- ===== src/Store/Accounts/Locking.antt =====
-- Locking the funds of a batch: what is held of each currency after it.
use cyptocurrency_exchange_b.Prelude.{ℕ, suc, String, refl, ap, ◌∙◌, subst, ◌&&◌, List, [], ◌∷◌}
use cyptocurrency_exchange_b.Prelude.Int.{pos}
use cyptocurrency_exchange_b.Decimal.{DecimalLib, Decimal, less_than_or_equal}
use cyptocurrency_exchange_b.Engine.Types.{Uuid}
use cyptocurrency_exchange_b.Engine.OrderBook.{slice_stable}
use cyptocurrency_exchange_b.Store.World.{Result, Db, World, ◌>>=◌}
use cyptocurrency_exchange_b.Store.World.After.{After, After-bind, After-weaken, bind_assoc}
use cyptocurrency_exchange_b.Store.Accounts.{
  is_account, update_accounts, lock, some_row, lock_each, lock_less, batch_lock_funds,
}
use cyptocurrency_exchange_b.Store.Accounts.Changes.{Updated-refl, Updated-still}
use cyptocurrency_exchange_b.Store.Accounts.Funds.{Moves, lock_row-Moves}

module _ ⦃lib : DecimalLib⦄ where
  Moves-then :
      {currency : String} {db1 db2 db3 : Db}
      → Moves currency (pos 0) db1 db2
      → Moves currency (pos 0) db2 db3
      → Moves currency (pos 0) db1 db3
  Moves-then {currency = currency} {db3 = db3} m n = record {
    updated = Updated-still currency _ _ _ m.updated n.updated;
    others = n.others ∙ ap (λ (db : Db). record db { accounts = db3.accounts }) m.others;
  }

  lock_each-Moves :
      (currency : String) (at : ℕ) (locks : List (Uuid × (String × Decimal))) (w : World)
      → After (lock_each at locks w) (λ _ w'. Moves currency (pos 0) w.db w'.db)
  unfolding lock_each
  lock_each-Moves currency at [] w = record {
    updated = Updated-refl currency w.db.accounts;
    others = refl;
  }
  lock_each-Moves currency at ((user_id, (c, amount)) ∷ locks) w =
      let update =
        update_accounts (λ a. is_account user_id c a && less_than_or_equal amount a.balance)
          (lock amount at) in
      subst (λ (r : Result (Unit {0}) × World). After r (λ _ w'. Moves currency (pos 0) w.db w'.db))
        (bind_assoc update some_row (λ _. lock_each at locks) w)
        (After-bind (update >>= some_row) (λ _. lock_each at locks) w
          (λ _ w'. Moves currency (pos 0) w.db w'.db) (λ _ w'. Moves currency (pos 0) w.db w'.db)
          (lock_row-Moves currency user_id c amount at w)
          (λ _ w1 m.
            After-weaken (lock_each at locks w1) (λ _ w'. Moves currency (pos 0) w1.db w'.db)
              (λ _ w'. Moves currency (pos 0) w.db w'.db) (lock_each-Moves currency at locks w1)
              (λ _ w2 n. Moves-then m n)))

  pub batch_lock_funds-Moves :
      (currency : String) (locks : List (Uuid × (String × Decimal))) (w : World)
      → After (batch_lock_funds locks w) (λ _ w'. Moves currency (pos 0) w.db w'.db)
  unfolding batch_lock_funds
  batch_lock_funds-Moves currency locks w =
      lock_each-Moves currency (w.env.unix_milli w.calls) (slice_stable lock_less locks)
        (record w { calls = suc w.calls })
