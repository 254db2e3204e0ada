-- ===== src/Api.antt =====
-- internal/api: what the gateway and the market data service offer to clients.
pub mod Orders
pub mod WebSocket
