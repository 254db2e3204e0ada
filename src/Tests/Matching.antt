-- ===== src/Tests/Matching.antt =====
-- The matching service at work: a leader with one engine, a quiet order, and a changing leadership.
use cyptocurrency_exchange_b.Prelude.{
  ℕ, ◌≡◌, refl, subst, Bool, true, false, Option, none, some, [], ◌==◌, if◌then◌else◌, arith,
}
use cyptocurrency_exchange_b.Prelude.Int.{pos, ◌<ℤ◌, ◌-ℤ◌}
use cyptocurrency_exchange_b.Engine.Types.{side_buy, type_limit}
use cyptocurrency_exchange_b.Engine.OrderBook.{add_order}
use cyptocurrency_exchange_b.Engine.Matching.{Engine, Processed, process}
use cyptocurrency_exchange_b.Engine.Manager.{get_engine}
use cyptocurrency_exchange_b.Domain.Events.{OrderPlacedEvent, OrderCancelRequestedEvent}
use cyptocurrency_exchange_b.MatchingService.Bus.{
  delivered, Env, Outcome, Subscriber, set_fencing_token, new_subscriber,
}
use cyptocurrency_exchange_b.MatchingService.{
  Codec, convert_to_matching_order, handle_events, handle_order_placed,
  handle_order_cancel_requested,
}
use cyptocurrency_exchange_b.MatchingService.Publishing.{Patient}
use cyptocurrency_exchange_b.MatchingService.Placed.{Handled, handle_order_placed-Handled}
use cyptocurrency_exchange_b.MatchingService.Canceled.{
  Removed, handle_order_cancel_requested-Removed,
}
use cyptocurrency_exchange_b.MatchingService.Keeps.{
  KeepsValid, AnnouncesQuantity, handle_events-IsValid,
}
use cyptocurrency_exchange_b.MatchingService.Rests.{described, handle_order_placed-rests}
use cyptocurrency_exchange_b.MatchingService.Restore.{on_become_leader}
use cyptocurrency_exchange_b.MatchingService.Restore.Turnover.{
  HasRestored, on_become_leader-HasRestored,
}
use cyptocurrency_exchange_b.Tests.Data.{whole_numbers, outside, db, world}
use cyptocurrency_exchange_b.Tests.Books.{engines, book-IsValid}

-- the elector stores 0 before the third call, and every publication succeeds
abbrev bus_env : Env
bus_env = record {
  set_token = λ n. if n == 2 then some 0 else none;
  publish = λ n. delivered;
  cache_fails = λ n. false;
  outside = λ n. outside;
}

bus_env-Patient : Patient 1 bus_env
bus_env-Patient n = (0, omega arith, λ h. cc)

abbrev leading : Subscriber
leading = set_fencing_token 5 (new_subscriber engines true true [] bus_env)

-- user 1 bids 4 at the price
abbrev placed : ℕ → OrderPlacedEvent
placed price = record {
  symbol = "BTC-USD";
  order_id = 12;
  user_id = 1;
  side = side_buy;
  type = type_limit;
  price = pos price;
  quantity = pos 4;
  created_at = 0;
  amount_locked = pos 400;
  locked_currency = "USD";
}

abbrev requested : OrderCancelRequestedEvent
requested = record { symbol = "BTC-USD"; order_id = 9; side = side_buy; user_id = 3 }

-- messages that are numbers: the price of a placed order
abbrev codec : Codec
codec = record {
  Bytes = ℕ;
  event_type = λ n. some "order.placed";
  order_placed = λ n. some (placed n);
  order_cancel_requested = λ n. none;
}

codec-AnnouncesQuantity : AnnouncesQuantity codec 100
codec-AnnouncesQuantity event h = subst Above h (omega arith)
  where
    Above : Option OrderPlacedEvent → Type 0
    Above none = Unit {0}
    Above (some e) = pos 0 <ℤ e.quantity

handle_order_placed-Handled_example :
    (r : Outcome × Subscriber) × (p : Processed) × (handle_order_placed 1 (placed 100) leading
      ≡ some r)
    × Handled (placed 100) leading p r
handle_order_placed-Handled_example =
    handle_order_placed-Handled 1 (placed 100) leading bus_env-Patient

handle_order_cancel_requested-Removed_example :
    (r : Outcome × Subscriber) × (e' : Engine) × (found : Bool) × (handle_order_cancel_requested 1
        requested leading
      ≡ some r)
    × Removed requested leading (get_engine "BTC-USD" engines).0 e' found r
handle_order_cancel_requested-Removed_example =
    handle_order_cancel_requested-Removed 1 requested leading bus_env-Patient

handle_events-IsValid_example : KeepsValid (handle_events codec 1 100 leading)
handle_events-IsValid_example =
    handle_events-IsValid codec 1 100 leading bus_env-Patient codec-AnnouncesQuantity
      (book-IsValid, tt)

-- a bid below the asks
abbrev rested : Processed
rested = record {
  book = add_order (get_engine "BTC-USD" engines).0 (convert_to_matching_order (placed 95));
  order = convert_to_matching_order (placed 95);
  trades = [];
}

rested-processed :
    process outside (get_engine "BTC-USD" engines).0 (convert_to_matching_order (placed 95))
    ≡ some rested
unfolding process get_engine convert_to_matching_order add_order ◌-ℤ◌
rested-processed = refl

handle_order_placed-rests_example :
    rested.book ≡ add_order (get_engine "BTC-USD" engines).0 (described (placed 95))
unfolding convert_to_matching_order
handle_order_placed-rests_example =
    handle_order_placed-rests (placed 95) leading rested rested-processed (omega arith) refl refl

on_become_leader-HasRestored_example :
    HasRestored false db.orders (on_become_leader 6 world leading).1.engine_manager
on_become_leader-HasRestored_example = on_become_leader-HasRestored 6 world leading
