-- ===== src/Store/Locks.antt =====
-- The `partition_leader_locks` table: internal/infrastructure/election/repository.go, and the check
-- of a fencing token in internal/repository/postgres.go. Tokens are above zero from the first insert
-- on, so a token is a natural number and `token <= 0` is `token == 0`.
use cyptocurrency_exchange_b.Prelude.{
  ℕ, suc, ◌+◌, String, Bool, true, not, ◌&&◌, Option, none, some, List, [], ◌∷◌, ltb, str_eq, ◌==◌,
  if◌then◌else◌,
}
use cyptocurrency_exchange_b.Decimal.{DecimalLib}
use cyptocurrency_exchange_b.Store.World.{
  no_rows, Result, ok, err, LeaderLock, World, Action, statement, now, ◌>>=◌, guard,
}

abbrev pub find_lock : String → List LeaderLock → Option LeaderLock
find_lock partition [] = none
find_lock partition (l ∷ rows) =
    if str_eq l.partition partition then some l else find_lock partition rows

-- 15 seconds, in the milliseconds of the clock
abbrev pub lease_duration : ℕ
lease_duration = 15000

-- The upsert of `AcquireLock`: the row that it returns is the token, if it wrote one.
unfoldable pub upsert_lock : String → String → ℕ → ℕ → List LeaderLock → Option ℕ × List LeaderLock
upsert_lock partition instance_id expires_at at [] = (
  some 1,
  record {
    partition = partition;
    leader_id = instance_id;
    fencing_token = 1;
    expires_at = expires_at;
  }
      ∷ [],
)
upsert_lock partition instance_id expires_at at (l ∷ rows) =
    let (token, rows') = upsert_lock partition instance_id expires_at at rows in
    if str_eq l.partition partition
    then (if ltb l.expires_at at
        then (
          some (l.fencing_token + 1),
          record l {
            leader_id = instance_id;
            fencing_token = l.fencing_token + 1;
            expires_at = expires_at;
          }
              ∷ rows,
        )
        else (none, l ∷ rows))
    else (token, l ∷ rows')

-- The UPDATE of `ExtendLease`, with the number of rows that it changed.
unfoldable pub extend_rows : String → String → ℕ → ℕ → List LeaderLock → ℕ × List LeaderLock
extend_rows partition instance_id token expires_at [] = (0, [])
extend_rows partition instance_id token expires_at (l ∷ rows) =
    let (n, rows') = extend_rows partition instance_id token expires_at rows in
    if str_eq l.partition partition && (str_eq l.leader_id instance_id && l.fencing_token == token)
    then (suc n, record l { expires_at = expires_at } ∷ rows')
    else (n, l ∷ rows')

-- The UPDATE of `ReleaseLock`.
unfoldable pub release_rows : String → String → List LeaderLock → List LeaderLock
release_rows partition instance_id [] = []
release_rows partition instance_id (l ∷ rows) =
    let rows' = release_rows partition instance_id rows in
    if str_eq l.partition partition && str_eq l.leader_id instance_id
    then record l { expires_at = 0 } ∷ rows'
    else l ∷ rows'

-- `token < currentToken` refuses; a partition with no row lets every token pass.
unfoldable pub token_is_valid : Option LeaderLock → ℕ → Bool
token_is_valid none token = true
token_is_valid (some l) token = not (ltb token l.fencing_token)

module _ ⦃lib : DecimalLib⦄ where
  -- `none` is `acquired == false`
  unfoldable pub acquire_lock : String → String → Action (Option ℕ)
  unfolding upsert_lock
  acquire_lock partition instance_id = do
    at ← now
    later ← now
    statement λ db.
        let (token, rows) =
          upsert_lock partition instance_id (later + lease_duration) at db.locks in
        (ok token, record db { locks = rows })

  unfoldable pub extend_lease : String → String → ℕ → Action (Unit {0})
  unfolding extend_rows
  extend_lease partition instance_id token = do
    at ← now
    n ← statement λ db.
        let (n, rows) = extend_rows partition instance_id token (at + lease_duration) db.locks in
        (ok n, record db { locks = rows })
    guard (not (n == 0)) no_rows

  unfoldable pub release_lock : String → String → Action (Unit {0})
  unfolding release_rows
  release_lock partition instance_id =
      statement λ db. (ok tt, record db { locks = release_rows partition instance_id db.locks })

  -- `ValidateFencingToken` of the election repository: an error of the query is an error.
  unfoldable pub validate_fencing_token : String → ℕ → Action Bool
  unfolding token_is_valid
  validate_fencing_token partition token w =
      if token == 0
      then (ok true, w)
      else statement (λ db. (ok (token_is_valid (find_lock partition db.locks) token), db)) w

  abbrev pub pass_on_error : Result Bool × World → Result Bool × World
  pass_on_error (ok valid, w) = (ok valid, w)
  pass_on_error (err e, w) = (ok true, w)

  -- `ValidateFencingTokenTx` of the PostgreSQL repository: on any error of the query the token passes.
  unfoldable pub validate_fencing_token_tx : String → ℕ → Action Bool
  unfolding token_is_valid
  validate_fencing_token_tx partition token w =
      if token == 0
      then (ok true, w)
      else pass_on_error
          (statement (λ db. (ok (token_is_valid (find_lock partition db.locks) token), db)) w)
