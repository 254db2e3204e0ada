-- ===== src/Tests/Services.antt =====
-- The cache, the market data and the middleware at concrete inputs.
use cyptocurrency_exchange_b.Prelude.{
  ◌==◌, ◌<◌, Bool, ℕ, ◌+◌, ◌-◌, ◌*◌, ◌≤◌, ◌≡◌, refl, true, false, none, some, List, [], ◌∷◌, ◌++◌,
  length, All, str_eq, if◌then◌else◌, arith,
}
use cyptocurrency_exchange_b.Prelude.Int.{pos, pos_part, ◌<ℤ◌}
use cyptocurrency_exchange_b.Engine.Types.{OrderBookSnapshot, new_order_book_snapshot}
use cyptocurrency_exchange_b.Store.World.{World}
use cyptocurrency_exchange_b.Store.World.After.{After}
use cyptocurrency_exchange_b.Store.Trades.{parse_interval_ms}
use cyptocurrency_exchange_b.Store.Trades.Candles.{AreCandles}
use cyptocurrency_exchange_b.Store.Cache.LatestWins.{token_under, write_all, write_all-newest}
use cyptocurrency_exchange_b.MarketData.{get_klines}
use cyptocurrency_exchange_b.MarketData.Limits.{get_klines-AreCandles}
use cyptocurrency_exchange_b.Middleware.RateLimit.{Bucket, Limiter, one_token, allow}
use cyptocurrency_exchange_b.Middleware.RateLimit.Bound.{
  kept, over, request, unanswered, allow_bound,
}
use cyptocurrency_exchange_b.Middleware.Idempotency.{
  Store, ResponseWriter, WriterCall, write_header, write, Served, get, idempotency_middleware,
}
use cyptocurrency_exchange_b.Middleware.Idempotency.Replay.{
  none_yet, other_request, Replays, idempotency_middleware-Replays,
}
use cyptocurrency_exchange_b.Api.Orders.{Packages, PlaceOrderRequest}
use cyptocurrency_exchange_b.Api.WebSocket.{
  depth_snapshot, WebSocketHandler, new_web_socket_handler, broadcast_message, handle_ws,
  run_broadcast, run_unregister,
}
use cyptocurrency_exchange_b.Api.WebSocket.Feed.{Follows, Ends}
use cyptocurrency_exchange_b.Api.WebSocket.Reached.{
  start, announces, connects, taken, Reachable-Follows,
}
use cyptocurrency_exchange_b.Tests.Data.{whole_numbers, db, world, trade}

-- A later leader's snapshot, and then one of an earlier leader that comes late.
abbrev snapshot : ℕ → OrderBookSnapshot
snapshot token = record (new_order_book_snapshot "BTC-USD") { fencing_token = token }

write_all-newest_example :
    (token_under "BTC-USD" [] ≤ token_under "BTC-USD" (write_all (snapshot 6 ∷ snapshot 5 ∷ []) []))
    × All
        (λ s.
          str_eq s.symbol "BTC-USD" ≡ true
          → s.fencing_token ≤ token_under "BTC-USD" (write_all (snapshot 6 ∷ snapshot 5 ∷ []) []))
        (snapshot 6 ∷ snapshot 5 ∷ [])
write_all-newest_example =
    write_all-newest (snapshot 6 ∷ snapshot 5 ∷ []) [] "BTC-USD" (omega arith, (omega arith, tt))

abbrev traded : World
traded = record world {
  db = record db { trades = trade ∷ record trade { id = 51; created_at = 70000 } ∷ [] };
}

get_klines-AreCandles_example : After (get_klines "btc-usd" "1m" (pos 5000) traded) (λ ks w'.
    AreCandles (parse_interval_ms "1m") ks
    × (length ks ≤ 1000)
    × (pos 0 <ℤ pos 5000 → length ks ≤ pos_part (pos 5000))
    × (w'.db ≡ traded.db))
get_klines-AreCandles_example = get_klines-AreCandles "btc-usd" "1m" (pos 5000) traded

-- Two requests a second, at most three at once, and a wider limiter with the same bucket.
abbrev limiter : Limiter
limiter = record { rate = 2; capacity = 3 }

abbrev wide : Limiter
wide = record { rate = 4; capacity = 4 }

abbrev first_bucket : Bucket
first_bucket = record { tokens = 2000000; refreshed = 1000000 }

abbrev next_bucket : Bucket
next_bucket = record { tokens = 3000000; refreshed = 1500000 }

allow_bound_example :
    (1 + (1 + (1 + 0))) * one_token
    ≤ 4 * one_token + (next_bucket.refreshed - 1000000) * 4 + 1 * one_token
unfolding allow
allow_bound_example =
    allow_bound 4 4 limiter 1000000 true (omega arith)
      (record { rate_lem = omega arith; capacity_lem = omega arith }) refl
      (request {b = first_bucket} wide 1500000 (some first_bucket) next_bucket true
        (record { rate_lem = omega arith; capacity_lem = omega arith }) (omega arith) kept refl
        (unanswered wide 1600000 (some next_bucket) (some next_bucket) true refl
          (over wide next_bucket)))

-- The handler counts its runs, and answers with the count.
abbrev handler : ℕ → List WriterCall × ℕ
handler n = (write_header 201 ∷ write (n ∷ []) ∷ [], n + 1)

-- The answer of a client: 0 while it has no status.
record AnsweredWith : Type 0 where
  pub status : ℕ
  pub body : List ℕ

abbrev status_of : ℕ → ℕ
status_of n = if n == 0 then 200 else n

same_body :
    (b : Bool) (code : ℕ) (w : AnsweredWith)
    → (if b then record w { status = code } else w).body ≡ w.body
same_body true code w = refl
same_body false code w = refl

first_status : (code : ℕ) → 0 < code → status_of code ≡ code
first_status code h = ground arith

instance abbrev plain_writer : ResponseWriter
plain_writer = record {
  Writer = AnsweredWith;
  fresh = record { status = 0; body = [] };
  send_header = λ code w. if w.status == 0 then record w { status = code } else w;
  send = λ bytes w. record w { body = w.body ++ bytes };
  status = λ w. status_of w.status;
  body = λ w. w.body;
  body-fresh = refl;
  body-send_header = λ code w. same_body (w.status == 0) code w;
  body-send = λ bytes w. refl;
  status-send_header = first_status;
  status-send = λ bytes w. refl;
}

abbrev first_served : Served ℕ
first_served = idempotency_middleware handler 100 "k" 10 11 [] 7

abbrev store_later : Store
store_later = (idempotency_middleware handler 100 "other" 20 21 first_served.store 8).store

idempotency_middleware-Replays_example :
    Replays ℕ 100 first_served.response store_later 9
      (idempotency_middleware handler 100 "k" 30 31 store_later 9)
unfolding get idempotency_middleware
idempotency_middleware-Replays_example =
    idempotency_middleware-Replays ℕ 100 handler handler "k" 10 11 30 31 [] store_later 7 9
      (record { code = 201; chunks = (7 ∷ []) ∷ []; positive = omega arith; written = refl }) refl
      refl refl (other_request "other" handler 20 21 8 none_yet refl) (omega arith)

-- One client connects, and is given a book.
abbrev announced : WebSocketHandler
announced =
    broadcast_message (depth_snapshot (snapshot 5)) "depth_snapshot"
      (handle_ws new_web_socket_handler)

Reachable-Follows_example :
    All (Follows []) announced.clients
    × Ends
        (run_broadcast announced)
        (λ h'. All (Follows ([] ++ taken announced.broadcast)) h'.clients)
    × ((n : ℕ) → Ends (run_unregister n announced) (λ h'. All (Follows []) h'.clients))
Reachable-Follows_example =
    Reachable-Follows (announces (depth_snapshot (snapshot 5)) "depth_snapshot" (connects start))

-- Packages that read one user and one symbol, and take every number for a whole one.
abbrev packages : Packages
packages = record {
  parse_uuid = λ text. if str_eq text "u1" then some 1 else none;
  match_string = λ pattern text. str_eq text "BTC-USD";
  exponent = λ d. pos 0;
}

abbrev limit_buy : PlaceOrderRequest
limit_buy = record {
  user_id = "u1";
  symbol = "btc-usd";
  side = "BUY";
  type = "LIMIT";
  price = pos 100;
  quantity = pos 3;
}
