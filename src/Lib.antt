-- ===== src/Lib.antt =====
-- The exchange backend: placing orders, matching them, and settling the trades.
--
-- The program is a set of services around one database and one message bus. The order service
-- (internal/order) locks funds and stores a new order together with an outbox message in one
-- transaction; after the commit it publishes the message, and a worker
-- (internal/infrastructure/outbox) publishes what is left; the matching service (internal/matching)
-- runs one engine per symbol over the orders that arrive by Kafka and asks for the settlement of
-- its trades; the order service then settles them, in one transaction, under the fencing token of
-- the engine that was leader (internal/infrastructure/election). The market data service
-- (internal/marketdata) passes trades and books on to clients. PostgreSQL holds users, accounts,
-- orders, trades, the outbox and the leader locks (sql/schema.sql), and Redis the last book of each
-- symbol.
--
-- What models what:
--   Prelude: shared names, Boolean tests, integers, lists, sorted lists.
--   Decimal: the package shopspring/decimal as a record of operations with their documented laws,
--     a parameter of everything that calculates; Decimal/Whole is an instance, for the tests.
--   Engine/Types, Engine/OrderBook, Engine/Matching, Engine/Manager: internal/matching/engine. A
--     slice of order pointers is the list of the orders; `process`, `cancel`, `add_order`,
--     `remove_order` and the others are the methods of `Engine` and `OrderBook`. The two matching
--     loops differ in the side and the price test, and share `match_loop`. It runs on fuel, one more
--     than the makers on the other side, which is enough because each round but the last removes a
--     maker.
--   Domain: internal/domain, rows, labels and events.
--   Store/World: state and errors. An action takes the database, the number of outside calls so far,
--     what the broker has taken, and an environment, and returns a result and the new state. The
--     environment answers, by the call's number, whether a statement fails, what the clock says,
--     what uuid.NewV7 returns, and whether the broker takes a message.
--     `exec_tx` is internal/repository/postgres.go's ExecTx: it restores the database on an error.
--   Store/Accounts, Store/Users, Store/Orders, Store/Trades: internal/repository, each statement on
--     the list of its table's rows, with the constraints of the schema; an INSERT into orders or
--     trades that breaks a foreign key is one of the statements that the environment fails.
--   Store/Cache: internal/repository/cache_repository.go, its script as one step.
--   Store/Outbox: internal/infrastructure/outbox/repository.go. Store/Locks: the leader locks of
--     internal/infrastructure/election, and the token check of internal/repository/postgres.go.
--   OrderService/Placing, OrderService/Accounts: internal/order/service.go and account_service.go,
--     with the outbox and the event bus set, as cmd/order-service/main.go sets them.
--   OrderService/Updates, OrderService/Settlement, OrderService/Handlers:
--     internal/order/event_subscribers.go.
--   MatchingService: internal/matching, the consumer of orders and the restoring of the engines, and
--     the callbacks of cmd/matching-engine/main.go. Its environment (MatchingService/Bus) answers, by
--     the call's number, what a publication meets, what the elector stores meanwhile as the fencing
--     token, and whether Redis fails. A publication that is tried until it succeeds runs on
--     fuel; `Patient` fuel is enough, where one of so many attempts succeeds or finds the context
--     canceled.
--   Delivery: internal/infrastructure/outbox/worker.go, and of internal/order/service.go the hot
--     path with the channel of the IDs that it has published.
--   MarketData: internal/marketdata. Middleware: internal/middleware, the idempotency middleware,
--     for which gin's ResponseWriter is a parameter, and the token bucket in Redis, which several
--     limiters may share; the script's floating point is exact arithmetic here.
--   Api/Orders: internal/api/validator.go, and the handlers of internal/api/order_handlers.go that
--     place and cancel orders. `uuid.Parse`, `regexp` and `Decimal.Exponent` are parameters.
--   Api/WebSocket: internal/api/websocket_handler.go, the hub and its clients. A client's part of the
--     map and its channel are fields of the client; a wrong use of a channel, which panics, is `none`.
--   Election: internal/infrastructure/election/elector.go; Election/Reachable has any number of
--     instances as a step relation.
--   Tests: the theorems at concrete inputs.
--
-- Conventions: a UUID is the number of its bytes, an int16 its bit pattern, a time a number of
-- milliseconds. A wrapped error is its cause. The payload of a message is the event that its JSON
-- text encodes. A lookup in the map of locked orders that finds nothing, where the code would
-- dereference nil, is the error `missing_order`. Upper case is that of ASCII letters.
--
-- Not modelled: the other HTTP handlers, the clients of Kafka and Redis, the decoding of JSON,
-- logging, metrics, the simulation, the wiring in cmd, the idempotency store in Redis and the rate
-- limiter in memory, which are calls of their packages, the rounding of the columns DECIMAL(38,18),
-- and the locks that order concurrent transactions: each transaction is one step.
pub mod Prelude
pub mod Decimal
pub mod Engine
pub mod Domain
pub mod Store
pub mod OrderService
pub mod Election
pub mod MatchingService
pub mod Delivery
pub mod MarketData
pub mod Middleware
pub mod Api
pub mod Tests
