-- ===== src/Store/World.antt =====
-- The tables of sql/schema.sql as lists of rows, and actions on them: state, errors, and the outside
-- calls (a statement that fails, the clock, `uuid.NewV7`, the broker), which the environment answers
-- by number.
-- A statement that fails changes nothing; `exec_tx` is `pgx.BeginFunc`, which rolls back on an error.
pub mod After
use cyptocurrency_exchange_b.Prelude.{
  ℕ, suc, String, Bool, true, false, Option, none, some, List, [], ◌∷◌, ◌++◌, if◌then◌else◌,
}
use cyptocurrency_exchange_b.Decimal.{DecimalLib}
use cyptocurrency_exchange_b.Engine.Types.{Uuid, Trade}
use cyptocurrency_exchange_b.Domain.Models.{User, Account, Order}
use cyptocurrency_exchange_b.Domain.Events.{Topic, Event, Sent}

-- A wrapped error (`%w`) is its cause, since `errors.Is` looks through the wrapping.
pub data Error : Type 0 where
  db_error no_rows insufficient_funds : Error
  invalid_quantity invalid_price invalid_symbol symbol_not_allowed no_liquidity : Error
  no_uuid forbidden not_cancelable not_in_tx : Error
  stale_settlement_event idempotency_skip missing_order : Error

pub data Result (A : Type 0) : Type 0 where
  ok : A → Result A
  err : Error → Result A

-- A row of `partition_leader_locks`.
pub record LeaderLock : Type 0 where
  pub partition : String
  pub leader_id : String
  pub fencing_token : ℕ
  pub expires_at : ℕ

pub record Env : Type 0 where
  pub fails : ℕ → Bool
  pub unix_milli : ℕ → ℕ
  pub new_v7 : ℕ → Option Uuid
  pub publishes : ℕ → Bool

module _ ⦃lib : DecimalLib⦄ where
  -- A row of `outbox_messages`. The payload is the event that its JSON text encodes.
  pub record Message : Type 0 where
    pub id : Uuid
    pub aggregate_id : Uuid
    pub aggregate_type : String
    pub topic : Topic
    pub partition_key : String
    pub payload : Event
    pub status : ℕ
    pub retry_count : ℕ
    pub created_at : ℕ
    pub published_at : ℕ

  pub record Db : Type 0 where
    pub users : List User
    pub accounts : List Account
    pub orders : List Order
    pub trades : List Trade
    pub outbox : List Message
    pub locks : List LeaderLock

  pub record World : Type 0 where
    pub db : Db
    pub calls : ℕ
    pub env : Env
    -- what the broker took
    pub bus : List Sent

  abbrev pub Action : Type 0 → Type 0
  Action A = World → Result A × World

  module _ {A : Type 0} where
    abbrev pub pure : A → Action A
    pure a w = (ok a, w)

    abbrev pub raise : Error → Action A
    raise e w = (err e, w)

    -- a statement against the database, which may fail for reasons of its own
    abbrev pub statement : (Db → Result A × Db) → Action A
    statement f w =
        let w' = record w { calls = suc w.calls } in
        let (r, db') = f w.db in
        if w.env.fails w.calls then (err db_error, w') else (r, record w' { db = db' })

    abbrev pub settle : Result A × World → Db → Result A × World
    settle (ok a, w) before =
        if w.env.fails w.calls
        then (err db_error, record w { db = before; calls = suc w.calls })
        else (ok a, record w { calls = suc w.calls })
    settle (err e, w) before = (err e, record w { db = before })

    -- begin, the body, and then commit, which may fail, or a rollback
    abbrev pub exec_tx : Action A → Action A
    exec_tx body w =
        let w' = record w { calls = suc w.calls } in
        if w.env.fails w.calls then (err db_error, w') else settle (body w') w.db

  infixl 5 ◌>>=◌ ◌>>◌
  abbrev pub ◌>>=◌ : {A B : Type 0} → Action A → (A → Action B) → Action B
  ◌>>=◌ m f w = let (r, w') = m w in elim r [ ok a ↦ f a w' | err e ↦ (err e, w') ]

  abbrev pub ◌>>◌ : {B : Type 0} → Action (Unit {0}) → Action B → Action B
  m >> k = m >>= λ _. k

  abbrev pub guard : Bool → Error → Action (Unit {0})
  guard true e = pure tt
  guard false e = raise e

  abbrev pub now : Action ℕ
  now w = (ok (w.env.unix_milli w.calls), record w { calls = suc w.calls })

  abbrev pub or_raise : {A : Type 0} → Option A → Error → Action A
  or_raise none e = raise e
  or_raise (some a) e = pure a

  abbrev pub new_uuid : Action Uuid
  new_uuid w = or_raise (w.env.new_v7 w.calls) no_uuid (record w { calls = suc w.calls })

  -- `PublishRaw`: whether it returned without an error
  abbrev pub publish_raw : Sent → Action Bool
  publish_raw m w =
      let w' = record w { calls = suc w.calls } in
      (
        ok (w.env.publishes w.calls),
        if w.env.publishes w.calls then record w' { bus = w.bus ++ m ∷ [] } else w',
      )
