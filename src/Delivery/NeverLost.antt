-- ===== src/Delivery/NeverLost.antt =====
-- No message is lost between its transaction and the broker.
use cyptocurrency_exchange_b.Prelude.{ℕ, ◌≡◌, ◌≢◌, sym, subst, List, [], ◌∷◌, ◌++◌, All}
use cyptocurrency_exchange_b.Decimal.{DecimalLib}
use cyptocurrency_exchange_b.Store.World.{World, Message}
use cyptocurrency_exchange_b.Delivery.{Sender, hot_path, receive_id, tick_batch, process_round}
use cyptocurrency_exchange_b.Delivery.Removal.{In, AllRows}
use cyptocurrency_exchange_b.Delivery.Rounds.{From}
use cyptocurrency_exchange_b.Delivery.Worker.{process_round-Serves}
use cyptocurrency_exchange_b.Delivery.Invariant.{
  IsSafe, Invariant, stores-Invariant, hot_path-Invariant, flush_batch-Invariant, take_id-Invariant,
  world-Invariant, same-Serves,
}

module _ ⦃lib : DecimalLib⦄ where
  -- The order service and its outbox worker, with the messages that were stored so far, newest first.
  -- A transaction that stores a message gives it an ID that no earlier message has; anything else
  -- leaves the outbox and the broker's messages as they are.
  pub data Reachable : List Message → Sender → Type 0 where
    start :
        (w : World)
        → w.db.outbox ≡ []
        → Reachable [] (record { world = w; published = []; batch = [] })
    stores :
        {history : List Message} (m : Message) (s : Sender) (w : World)
        → Reachable history s
        → All (λ x. x.id ≢ m.id) history
        → w.db.outbox ≡ s.world.db.outbox ++ m ∷ []
        → w.bus ≡ s.world.bus
        → Reachable (m ∷ history) (record s { world = w })
    others :
        {history : List Message} (s : Sender) (w : World)
        → Reachable history s
        → w.db.outbox ≡ s.world.db.outbox
        → w.bus ≡ s.world.bus
        → Reachable history (record s { world = w })
    publishes :
        {history : List Message} (m : Message) (s : Sender)
        → Reachable history s
        → In m history
        → Reachable history (hot_path m s)
    receives :
        {history : List Message} (s : Sender)
        → Reachable history s
        → Reachable history (receive_id s)
    ticks :
        {history : List Message} (s : Sender)
        → Reachable history s
        → Reachable history (tick_batch s)
    works :
        {history : List Message} (batch_size : ℕ) (s : Sender)
        → Reachable history s
        → Reachable history (record s { world = (process_round batch_size s.world).1 })

  Reachable-Invariant :
      {history : List Message} {s : Sender} → Reachable history s → Invariant history s
  unfolding receive_id
  Reachable-Invariant (start w rows) = record {
    safe = tt;
    rows = subst (AllRows (From [])) (sym rows) tt;
    published = tt;
    batch = tt;
    distinct = tt;
  }
  Reachable-Invariant (stores {history = history} m s w r fresh rows bus) =
      stores-Invariant history m s w fresh rows bus (Reachable-Invariant r)
  Reachable-Invariant (others {history = history} s w r rows bus) =
      world-Invariant history s w (same-Serves history s.world w rows bus) (Reachable-Invariant r)
  Reachable-Invariant (publishes {history = history} m s r i) =
      hot_path-Invariant history m s i (Reachable-Invariant r)
  Reachable-Invariant (receives {history = history} s r) =
      let v = Reachable-Invariant r in take_id-Invariant history s s.published v.published v
  Reachable-Invariant (ticks {history = history} s r) =
      flush_batch-Invariant history s (Reachable-Invariant r)
  Reachable-Invariant (works {history = history} batch_size s r) =
      let v = Reachable-Invariant r in
      world-Invariant history s (process_round batch_size s.world).1
        (process_round-Serves history batch_size s.world v.rows) v

  -- After any sequence of transactions that store messages under new IDs, publications by the hot
  -- path, removals of published messages in batches, and rounds of the worker, in any order and
  -- whatever fails in them, every message that was stored waits in the outbox or was taken by the
  -- broker.
  pub Reachable-IsSafe :
      {history : List Message} {s : Sender} → Reachable history s → All (IsSafe s.world) history
  Reachable-IsSafe r = (Reachable-Invariant r).safe
