-- ===== src/Tests/Delivery.antt =====
-- A message on its way from the outbox to the broker.
use cyptocurrency_exchange_b.Prelude.{refl, inl, [], ◌∷◌, All}
use cyptocurrency_exchange_b.Domain.Events.{Topic, order_cancel_requested}
use cyptocurrency_exchange_b.Store.World.{World, Message}
use cyptocurrency_exchange_b.Store.Outbox.{draft}
use cyptocurrency_exchange_b.Delivery.{Sender, hot_path, process_round}
use cyptocurrency_exchange_b.Delivery.NeverLost.{
  Reachable, start, stores, publishes, works, Reachable-IsSafe,
}
use cyptocurrency_exchange_b.Delivery.Invariant.{IsSafe}
use cyptocurrency_exchange_b.Tests.Data.{whole_numbers, db, world}

abbrev message : Message
message =
    record (draft 20 "order_cancel_requested" Topic.orders "BTC-USD" (
      order_cancel_requested
        (record { symbol = "BTC-USD"; order_id = 20; side = 1; user_id = 1 }))) { id = 70 }

abbrev stored : World
stored = record world { db = record db { outbox = message ∷ [] } }

abbrev sender : Sender
sender = record { world = stored; published = []; batch = [] }

stored-Reachable : Reachable (message ∷ []) sender
stored-Reachable =
    stores message (record { world = world; published = []; batch = [] }) stored (start world refl)
      tt refl refl

Reachable-IsSafe_example :
    All (IsSafe (process_round 10 (hot_path message sender).world).1) (message ∷ [])
Reachable-IsSafe_example =
    Reachable-IsSafe
      (works 10 (hot_path message sender) (publishes message sender stored-Reachable (inl refl)))
