-- ===== src/Delivery.antt =====
-- How outbox messages reach the broker: one round of internal/infrastructure/outbox/worker.go, and
-- the hot path of internal/order/service.go with the channel of the IDs that it has published.
pub mod Removal
pub mod Rounds
pub mod Worker
pub mod Invariant
pub mod NeverLost
pub mod Healthy
use cyptocurrency_exchange_b.Prelude.{
  ℕ, Bool, true, false, List, [], ◌∷◌, ◌++◌, length, leb, ltb, if◌then◌else◌,
}
use cyptocurrency_exchange_b.Decimal.{DecimalLib}
use cyptocurrency_exchange_b.Engine.Types.{Uuid}
use cyptocurrency_exchange_b.Domain.Events.{Sent}
use cyptocurrency_exchange_b.Store.World.{
  Result, ok, World, Message, Action, pure, exec_tx, publish_raw, ◌>>=◌, ◌>>◌,
}
use cyptocurrency_exchange_b.Store.Outbox.{
  fetch_pending, increment_retry, mark_published_batch, count_pending,
}

module _ ⦃lib : DecimalLib⦄ where
  -- what `PublishRaw` is given of a message
  abbrev pub raw : Message → Sent
  raw m = record { topic = m.topic; key = m.partition_key; event = m.payload }

  -- An error that is only logged, or not even that.
  abbrev pub ignored : {A : Type 0} → Action A → Action (Unit {0})
  ignored m w = (ok tt, (m w).1)

  -- 5 seconds
  abbrev pub grace_period : ℕ
  grace_period = 5000

  -- The loop over the messages: the IDs of those that were published.
  pub publish_pending : List Message → Action (List Uuid)
  publish_pending [] = pure []
  publish_pending (m ∷ msgs) =
      let rest = publish_pending msgs in
      publish_raw (raw m) >>= λ sent.
      if sent then (rest >>= λ ids. pure (m.id ∷ ids)) else (increment_retry m.id >> rest)

  pub worker_body : ℕ → Action (Unit {0})
  unfolding publish_pending
  worker_body batch_size = do
    msgs ← fetch_pending batch_size grace_period
    ids ← publish_pending msgs
    mark_published_batch ids

  -- `process` of the worker
  unfoldable pub process_round : ℕ → Action (Unit {0})
  unfolding worker_body
  process_round batch_size = do ignored count_pending; ignored (exec_tx (worker_body batch_size))

  -- The capacity of `publishedMsgChan`, and when its reader does not wait for the tick.
  abbrev pub channel_capacity : ℕ
  channel_capacity = 5000

  abbrev pub early_flush : ℕ
  early_flush = 200

  -- The database and the broker, the channel, and the batch of the goroutine that reads it.
  pub record Sender : Type 0 where
    pub world : World
    pub published : List Uuid
    pub batch : List Uuid

  -- a full channel takes nothing
  abbrev pub offer : Uuid → List Uuid → List Uuid
  offer id ids = if ltb (length ids) channel_capacity then ids ++ id ∷ [] else ids

  abbrev pub after_attempt : Uuid → Sender → Result Bool × World → Sender
  after_attempt id s (ok true, w) = record s { world = w; published = offer id s.published }
  after_attempt id s (_, w) = record s { world = w }

  -- The goroutine that a request starts after its commit.
  unfoldable pub hot_path : Message → Sender → Sender
  hot_path m s = after_attempt m.id s (publish_raw (raw m) s.world)

  unfoldable pub flush_batch : Sender → Sender
  flush_batch s = record s { world = (mark_published_batch s.batch s.world).1; batch = [] }

  abbrev pub maybe_flush : Sender → Sender
  maybe_flush s = if leb early_flush (length s.batch) then flush_batch s else s

  abbrev pub take_id : List Uuid → Sender → Sender
  take_id [] s = s
  take_id (id ∷ ids) s = maybe_flush (record s { published = ids; batch = s.batch ++ id ∷ [] })

  -- The two cases of the loop of `batchMarkPublishedWorker`.
  unfoldable pub receive_id : Sender → Sender
  unfolding flush_batch
  receive_id s = take_id s.published s

  abbrev pub tick_batch : Sender → Sender
  tick_batch s = flush_batch s
