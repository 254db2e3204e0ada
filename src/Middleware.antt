-- ===== src/Middleware.antt =====
-- internal/middleware: what stands before the handlers of the gateway.
pub mod Idempotency
pub mod RateLimit
