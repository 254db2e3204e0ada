-- ===== src/MatchingService/Restore.antt =====
-- internal/matching/initializer.go, and what cmd/matching-engine/main.go does when its instance
-- becomes the leader and when it ceases to be. Creating the topics and starting or stopping the
-- Kafka consumer are calls of the Kafka client, whose errors are only logged.
pub mod Content
pub mod Turnover
use cyptocurrency_exchange_b.Prelude.{ℕ, String, Bool, List, [], ◌∷◌, ◌==◌, if◌then◌else◌}
use cyptocurrency_exchange_b.Decimal.{DecimalLib, sub}
use cyptocurrency_exchange_b.Engine.Types.{Order, type_limit}
use cyptocurrency_exchange_b.Engine.Matching.{restore_order}
use cyptocurrency_exchange_b.Engine.Manager.{EngineManager, get_engine, reset}
use cyptocurrency_exchange_b.Domain.Models as Models
use cyptocurrency_exchange_b.Store.World.{Result, ok, err, World, Action, pure, ◌>>=◌}
use cyptocurrency_exchange_b.Store.Orders.{get_active_orders}
use cyptocurrency_exchange_b.MatchingService.Bus.{Subscriber, set_fencing_token}
use cyptocurrency_exchange_b.MatchingService.{
  match_side, write_engine, book_depth, sync_recovered_order_books,
}

module _ ⦃lib : DecimalLib⦄ where
  -- what is left of a stored order
  abbrev pub matching_order : Models.Order → Order
  matching_order order = record {
    id = order.id;
    user_id = order.user_id;
    side = match_side order.side;
    type = type_limit;
    price = order.price;
    quantity = sub order.quantity order.filled_quantity;
  }

  -- `GetEngine` never returns nil
  unfoldable pub restore_one : Models.Order → EngineManager → EngineManager
  unfolding get_engine write_engine
  restore_one order m =
      let (e, engines) = get_engine order.symbol m in
      if order.type == type_limit
      then write_engine order.symbol (restore_order e (matching_order order)) engines
      else m

  unfoldable pub restore_each : List Models.Order → EngineManager → EngineManager
  unfolding restore_one
  restore_each [] m = m
  restore_each (order ∷ orders) m = restore_each orders (restore_one order m)

  -- the engines after the call, if it returns nil
  unfoldable pub restore_engine_snapshot : EngineManager → Action EngineManager
  unfolding get_active_orders restore_each
  restore_engine_snapshot m = do orders ← get_active_orders; pure (restore_each orders m)

  -- an error is only logged
  abbrev pub restored_or : EngineManager → Result EngineManager → EngineManager
  restored_or m (ok restored) = restored
  restored_or m (err e) = m

  -- the engines as restored, their books sent to the cache and to the bus
  unfoldable pub start_leading : Result EngineManager → Subscriber → Subscriber
  unfolding sync_recovered_order_books
  start_leading restored s =
      let s' : Subscriber = record s { engine_manager = restored_or s.engine_manager restored } in
      (sync_recovered_order_books book_depth s').1

  unfoldable pub on_become_leader : ℕ → World → Subscriber → World × Subscriber
  unfolding restore_engine_snapshot start_leading
  on_become_leader token w s =
      let s' = set_fencing_token token (record s { engine_manager = reset s.engine_manager }) in
      let (restored, w') = restore_engine_snapshot s'.engine_manager w in
      (w', start_leading restored s')

  abbrev pub on_lose_leadership : Subscriber → Subscriber
  on_lose_leadership s = set_fencing_token 0 s
