-- ===== src/Tests/Funds.antt =====
-- Placing, settling and cancelling, at a database with two users.
use cyptocurrency_exchange_b.Prelude.{String, ◌≡◌, refl, inl, inr, List, [], ◌∷◌}
use cyptocurrency_exchange_b.Prelude.Int.{pos, ◌+ℤ◌, ◌-ℤ◌, ◌*ℤ◌}
use cyptocurrency_exchange_b.Domain.Models as Models
use cyptocurrency_exchange_b.Domain.Labels.{
  side_from_string, type_from_string, side_to_string, type_to_string, from_string-to_string,
}
use cyptocurrency_exchange_b.Engine.Types.{side_buy, type_limit}
use cyptocurrency_exchange_b.Store.World.{Result, ok, err, World, exec_tx}
use cyptocurrency_exchange_b.Store.World.After.{After}
use cyptocurrency_exchange_b.Store.Accounts.{
  update_rows, update_accounts, update_balance, lock_funds, unlock_funds,
}
use cyptocurrency_exchange_b.Store.Orders.{get_order_for_update, update_order}
use cyptocurrency_exchange_b.Store.Trades.{create_trade, trade_exists_by_id}
use cyptocurrency_exchange_b.Store.Locks.{validate_fencing_token_tx, token_is_valid}
use cyptocurrency_exchange_b.Engine.OrderBook.{slice_stable, sort_from, insert_stable}
use cyptocurrency_exchange_b.Store.Accounts.Balances.{Updated, share}
use cyptocurrency_exchange_b.Store.Accounts.Funds.{
  Moves, update_balance-Moves, lock_funds-Moves, unlock_funds-Moves,
}
use cyptocurrency_exchange_b.OrderService.Symbols.{split_symbol}
use cyptocurrency_exchange_b.OrderService.Settlement.{
  settlement_body, prepare, prepare_fenced, write_settlement, lock_orders, check_fencing,
  check_replay, settle_trades, close_taker, save_orders, create_trades, apply_updates,
  execute_settlement_tx,
}
use cyptocurrency_exchange_b.OrderService.Updates.{
  calculate_trade_settlement, aggregate_and_sort, merge, merge_all, nonzero,
}
use cyptocurrency_exchange_b.OrderService.Settlement.Stale.{execute_settlement_tx-stale}
use cyptocurrency_exchange_b.OrderService.Settlement.Conserves.{IsStocked}
use cyptocurrency_exchange_b.OrderService.Handlers.{
  handle_settlement_requested, handle_order_canceled,
}
use cyptocurrency_exchange_b.OrderService.Handlers.Delivery.{
  handle_settlement_requested-Updated, handle_settlement_requested-replay,
}
use cyptocurrency_exchange_b.OrderService.Handlers.Cancel.{handle_order_canceled-Updated}
use cyptocurrency_exchange_b.OrderService.Placing.{
  cancel_order, calculate_lock_amount, normalized, place_order, prepare_batch, batch_place_orders,
}
use cyptocurrency_exchange_b.OrderService.Placing.Batch.{BatchOutcome, batch_place_orders-Outcome}
use cyptocurrency_exchange_b.OrderService.Placing.Batch.Totals.{
  total, announced_total, prepare_batch-totals,
}
use cyptocurrency_exchange_b.OrderService.Placing.Placed.{Outcome, place_order-Outcome}
use cyptocurrency_exchange_b.OrderService.Placing.Cancellation.{
  RequestOutcome, cancel_order-RequestOutcome,
}
use cyptocurrency_exchange_b.Tests.Data.{
  whole_numbers, leader, db, world, trade, settlement, cancellation, request, no_snapshots,
}

abbrev currencies : List String
currencies = "BTC" ∷ "USD" ∷ []

db-IsStocked : IsStocked currencies db
unfolding split_symbol
db-IsStocked = (
  ((refl, (refl, (refl, tt))), ((refl, (refl, tt)), ((refl, tt), (tt, tt)))),
  (
    ((inr (inl refl), (inl refl, tt)), (inl refl, inr (inl refl))),
    (((inr (inr (inr (inl refl))), (inr (inr (inl refl)), tt)), (inl refl, inr (inl refl))), tt),
  ),
)

handle_settlement_requested-Updated_example :
    Updated "USD"
      (pos 0)
      db.accounts
      (handle_settlement_requested (settlement 5) world).1.db.accounts
handle_settlement_requested-Updated_example =
    handle_settlement_requested-Updated currencies "USD" (settlement 5) world db-IsStocked

handle_order_canceled-Updated_example :
    Updated "USD" (pos 0) db.accounts (handle_order_canceled cancellation world).1.db.accounts
handle_order_canceled-Updated_example = handle_order_canceled-Updated "USD" cancellation world

execute_settlement_tx-stale_example :
    execute_settlement_tx (settlement 4) world ≡ (ok [], record world { calls = 2 })
execute_settlement_tx-stale_example =
    execute_settlement_tx-stale (settlement 4) leader world refl refl refl refl refl

place_order-Outcome_example :
    Outcome
      (normalized request)
      (calculate_lock_amount no_snapshots (normalized request))
      db
      (place_order no_snapshots request world)
place_order-Outcome_example = place_order-Outcome no_snapshots request world

cancel_order-RequestOutcome_example : RequestOutcome 20 1 db (cancel_order 20 1 world)
cancel_order-RequestOutcome_example = cancel_order-RequestOutcome 20 1 world

from_string-to_string_example :
    (side_to_string side_buy ≡ "BUY") × (type_to_string type_limit ≡ "LIMIT")
unfolding side_from_string type_from_string
from_string-to_string_example = from_string-to_string "BUY" "LIMIT" side_buy type_limit refl refl

update_balance-Moves_example :
    After
      (update_balance 1 "USD" (pos 5) world)
      (λ _ w'. Moves "USD" (share "USD" "USD" (pos 5)) db w'.db)
update_balance-Moves_example =
    update_balance-Moves "USD" 1 "USD" (pos 5) world db-IsStocked.0 (inl refl)

lock_funds-Moves_example :
    After (lock_funds 1 "USD" (pos 5) world) (λ _ w'. Moves "USD" (pos 0) db w'.db)
lock_funds-Moves_example = lock_funds-Moves "USD" 1 "USD" (pos 5) world

unlock_funds-Moves_example :
    After (unlock_funds 1 "USD" (pos 5) world) (λ _ w'. Moves "USD" (pos 0) db w'.db)
unlock_funds-Moves_example = unlock_funds-Moves "USD" 1 "USD" (pos 5) world

abbrev saved_in : Result (List Models.Order) × World → List Models.Order
saved_in (ok saved, w) = saved
saved_in (err e, w) = []

abbrev settled : Result (List Models.Order) × World
settled = exec_tx (settlement_body (settlement 5)) world

settles : settled ≡ (ok (saved_in settled), settled.1)
unfolding settlement_body prepare prepare_fenced write_settlement lock_orders check_fencing
    check_replay settle_trades close_taker calculate_trade_settlement save_orders create_trades
    apply_updates aggregate_and_sort merge merge_all nonzero slice_stable sort_from insert_stable
    get_order_for_update update_order create_trade trade_exists_by_id validate_fencing_token_tx
    token_is_valid update_balance unlock_funds update_accounts update_rows split_symbol ◌+ℤ◌ ◌-ℤ◌
    ◌*ℤ◌
settles = refl

handle_settlement_requested-replay_example :
    (handle_settlement_requested (settlement 5) settled.1).1.db ≡ settled.1.db
handle_settlement_requested-replay_example =
    handle_settlement_requested-replay (settlement 5) trade [] (saved_in settled) world settled.1
      settled.1 refl settles (λ id stored. stored)

-- a batch of the request and of the same with another quantity
abbrev batch : List Models.Order
batch = request ∷ record request { quantity = pos 2 } ∷ []

batch_place_orders-Outcome_example :
    BatchOutcome no_snapshots 0 batch db (batch_place_orders no_snapshots batch world)
batch_place_orders-Outcome_example = batch_place_orders-Outcome no_snapshots batch world

prepare_batch-totals_example :
    After
      (prepare_batch no_snapshots 0 [] batch world)
      (λ r _. total 1 "USD" r.0 ≡ announced_total 1 "USD" r.1.1)
prepare_batch-totals_example = prepare_batch-totals 1 "USD" no_snapshots 0 batch world
