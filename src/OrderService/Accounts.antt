-- ===== src/OrderService/Accounts.antt =====
-- internal/order/account_service.go. `uuid_text` is the text that `uuid.UUID.String` gives an ID.
use cyptocurrency_exchange_b.Prelude.{ℕ, String, List, [], ◌∷◌}
use Prim.Native.String
use cyptocurrency_exchange_b.Decimal.{DecimalLib, Decimal, zero_dec, from_int}
use cyptocurrency_exchange_b.Engine.Types.{Uuid}
use cyptocurrency_exchange_b.Domain.Models.{User, Account}
use cyptocurrency_exchange_b.Store.World.{Action, pure, exec_tx, now, new_uuid, ◌>>=◌, ◌>>◌}
use cyptocurrency_exchange_b.Store.Accounts.{create_account, update_balance, get_accounts_by_user}
use cyptocurrency_exchange_b.Store.Users.{create_user}

module _ ⦃lib : DecimalLib⦄ where
  -- the test money, by currency
  abbrev pub grants : List (String × Decimal)
  grants = ("USD", from_int 1000000) ∷ ("BTC", from_int 100) ∷ ("ETH", from_int 1000) ∷ []

  pub open_accounts : Uuid → ℕ → List (String × Decimal) → Action (List Account)
  open_accounts user_id at [] = pure []
  open_accounts user_id at ((code, amount) ∷ rest) = do
    id ← new_uuid
    let account : Account = record {
      id = id;
      user_id = user_id;
      currency = code;
      balance = amount;
      locked = zero_dec;
      created_at = at;
      updated_at = at;
    }
    create_account account
    accounts ← open_accounts user_id at rest
    pure (account ∷ accounts)

  pub register_body : User → Uuid → ℕ → Action (List Account)
  unfolding open_accounts
  register_body user user_id at = do create_user user; open_accounts user_id at grants

  unfoldable pub register_anonymous_user : (Uuid → String) → Action (User × List Account)
  unfolding register_body
  register_anonymous_user uuid_text = do
    user_id ← new_uuid
    at ← now
    let user : User = record {
      id = user_id;
      email = String.◌++◌ "anonymous_" (String.◌++◌ (uuid_text user_id) "@test.com");
      password_hash = "N/A";
      created_at = at;
      updated_at = at;
    }
    accounts ← exec_tx (register_body user user_id at)
    pure (user, accounts)

  unfoldable pub get_balances : Uuid → Action (List Account)
  get_balances user_id = get_accounts_by_user user_id

  unfoldable pub recharge_test_user : Uuid → Action (Unit {0})
  recharge_test_user user_id = exec_tx (do
    update_balance user_id "BTC" (from_int 10000)
    update_balance user_id "USD" (from_int 100000000))
