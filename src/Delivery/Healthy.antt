-- ===== src/Delivery/Healthy.antt =====
-- A round of the worker while the database and the broker answer.
use cyptocurrency_exchange_b.Prelude.{
  ℕ, ◌-◌, ◌≡◌, true, false, List, [], ◌∷◌, map, take, ltb, leb, Bool, ◌==◌, ◌&&◌, if◌then◌else◌,
}
use cyptocurrency_exchange_b.Decimal.{DecimalLib}
use cyptocurrency_exchange_b.Engine.Types.{Uuid}
use cyptocurrency_exchange_b.Engine.OrderBook.{slice_stable}
use cyptocurrency_exchange_b.Domain.Events.{Sent}
use cyptocurrency_exchange_b.Store.World.{Env, World, Message}

-- No statement fails, and the broker takes every message.
pub record IsHealthy (env : Env) : Type 0 where
  pub answers : (n : ℕ) → env.fails n ≡ false
  pub takes : (n : ℕ) → env.publishes n ≡ true

module _ ⦃lib : DecimalLib⦄ where
  -- the messages that are still pending and were created five seconds before the time or earlier
  abbrev pub waiting : ℕ → List Message → List Message
  waiting at [] = []
  waiting at (m ∷ rows) =
      let rest = waiting at rows in
      if m.status == 0 && leb m.created_at (at - 5000) then m ∷ rest else rest

  -- the oldest of these, as many as a batch holds
  abbrev pub due : ℕ → ℕ → List Message → List Message
  due batch_size at rows =
      take batch_size (slice_stable (λ a b. ltb a.created_at b.created_at) (waiting at rows))

  -- whether the ID is none of these
  abbrev pub is_unnamed : List Uuid → Uuid → Bool
  is_unnamed [] id = true
  is_unnamed (other ∷ ids) id = if id == other then false else is_unnamed ids id

  -- the messages with none of the IDs, as they were and in their order
  abbrev pub unnamed : List Uuid → List Message → List Message
  unnamed ids [] = []
  unnamed ids (m ∷ rows) =
      let rest = unnamed ids rows in if is_unnamed ids m.id then m ∷ rest else rest

  abbrev pub ids_of : List Message → List Uuid
  ids_of msgs = map (λ (m : Message). m.id) msgs

  -- after the calls, with the rows and the messages
  abbrev later : World → ℕ → List Message → List Sent → World
  later w n rows bus = record w { calls = n; db = record w.db { outbox = rows }; bus = bus }
