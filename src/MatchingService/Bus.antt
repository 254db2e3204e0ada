-- ===== src/MatchingService/Bus.antt =====
-- What the matching service reaches: the event bus, the cache, the clock, and the token that the
-- elector sets from its own goroutine. The environment answers by the number of the call.
use cyptocurrency_exchange_b.Prelude.{ℕ, zero, suc, Bool, Option, none, some, List, [], ◌∷◌, ◌++◌}
use cyptocurrency_exchange_b.Decimal.{DecimalLib}
use cyptocurrency_exchange_b.Engine.Matching.{Outside}
use cyptocurrency_exchange_b.Engine.Manager.{EngineManager}
pub use cyptocurrency_exchange_b.Domain.Events.{Sent}
use cyptocurrency_exchange_b.Store.Cache.{Cache}

-- How one call of `Publish` ends: without an error, with one, or with one after the context ended.
pub data Attempt : Type 0 where
  delivered failed canceled : Attempt

-- How a handler ends: nil, `ctx.Err()`, or the error of `json.Unmarshal`.
pub data Outcome : Type 0 where
  done ctx_canceled bad_payload : Outcome

pub record Env : Type 0 where
  -- a call of `SetFencingToken` that comes before the call
  pub set_token : ℕ → Option ℕ
  pub publish : ℕ → Attempt
  -- Redis does not answer
  pub cache_fails : ℕ → Bool
  pub outside : ℕ → Outside

module _ ⦃lib : DecimalLib⦄ where
  -- The subscriber, with what it reaches.
  pub record Subscriber : Type 0 where
    pub engine_manager : EngineManager
    pub fencing_token : ℕ
    pub has_event_bus : Bool
    pub has_cache_repo : Bool
    pub cache : Cache
    pub bus : List Sent
    pub calls : ℕ
    pub env : Env

  -- 0 is the token of a standby
  abbrev pub new_subscriber : EngineManager → Bool → Bool → Cache → Env → Subscriber
  new_subscriber engine_manager has_event_bus has_cache_repo cache env = record {
    engine_manager = engine_manager;
    fencing_token = 0;
    has_event_bus = has_event_bus;
    has_cache_repo = has_cache_repo;
    cache = cache;
    bus = [];
    calls = 0;
    env = env;
  }

  abbrev pub set_fencing_token : ℕ → Subscriber → Subscriber
  set_fencing_token token s = record s { fencing_token = token }

  abbrev pub called : Subscriber → Subscriber
  called s = record s { calls = suc s.calls }

  abbrev pub store_token : Option ℕ → Subscriber → Subscriber
  store_token none s = s
  store_token (some token) s = set_fencing_token token s

  -- `s.fencingToken.Load()`, after what the elector has stored
  unfoldable pub load_token : Subscriber → ℕ × Subscriber
  load_token s = let s' = store_token (s.env.set_token s.calls) (called s) in (s'.fencing_token, s')

  -- A part of a handler; `none` is a retry loop that has not ended within its fuel.
  abbrev pub Step : Type 0
  Step = Subscriber → Option (Outcome × Subscriber)

  abbrev pub then_step : Option (Outcome × Subscriber) → Step → Option (Outcome × Subscriber)
  then_step none k = none
  then_step (some (done, s)) k = k s
  then_step (some (ctx_canceled, s)) k = some (ctx_canceled, s)
  then_step (some (bad_payload, s)) k = some (bad_payload, s)

  -- The loop around `Publish`: again until it succeeds or the context has ended.
  unfoldable pub publish_retry : ℕ → Sent → Step
  publish_retry zero m s = none
  publish_retry (suc fuel) m s = elim (s.env.publish s.calls) [
    | delivered ↦ some (done, record (called s) { bus = s.bus ++ m ∷ [] })
    | canceled ↦ some (ctx_canceled, called s)
    | failed ↦ publish_retry fuel m (called s)
  ]

  -- The loop over the trades' events.
  unfoldable pub publish_each : ℕ → List Sent → Step
  unfolding publish_retry
  publish_each fuel [] s = some (done, s)
  publish_each fuel (m ∷ ms) s = then_step (publish_retry fuel m s) (publish_each fuel ms)

  abbrev pub deliver : Attempt → Sent → Subscriber → Subscriber
  deliver delivered m s = record s { bus = s.bus ++ m ∷ [] }
  deliver failed m s = s
  deliver canceled m s = s

  -- One call of `Publish` whose error is only logged.
  unfoldable pub publish_once : Sent → Subscriber → Subscriber
  publish_once m s = deliver (s.env.publish s.calls) m (called s)
