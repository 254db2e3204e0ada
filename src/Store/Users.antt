-- ===== src/Store/Users.antt =====
-- internal/repository/user_repository.go over the `users` table.
use cyptocurrency_exchange_b.Prelude.{
  String, Bool, false, ◌||◌, Option, none, some, List, [], ◌∷◌, ◌++◌, str_eq, ◌==◌, if◌then◌else◌,
}
use cyptocurrency_exchange_b.Decimal.{DecimalLib}
use cyptocurrency_exchange_b.Domain.Models.{User}
use cyptocurrency_exchange_b.Store.World.{db_error, no_rows, ok, err, Action, statement}

-- the primary key, and `email ... UNIQUE`
abbrev pub clashes : User → List User → Bool
clashes user [] = false
clashes user (u ∷ rows) = u.id == user.id || (str_eq u.email user.email || clashes user rows)

abbrev pub find_email : String → List User → Option User
find_email email [] = none
find_email email (u ∷ rows) = if str_eq u.email email then some u else find_email email rows

module _ ⦃lib : DecimalLib⦄ where
  unfoldable pub create_user : User → Action (Unit {0})
  create_user user = statement λ db.
      if clashes user db.users
      then (err db_error, db)
      else (ok tt, record db { users = db.users ++ user ∷ [] })

  unfoldable pub get_user_by_email : String → Action User
  get_user_by_email email =
      statement
        λ db. elim (find_email email db.users) [ none ↦ (err no_rows, db) | some u ↦ (ok u, db) ]
