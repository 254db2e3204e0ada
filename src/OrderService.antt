-- ===== src/OrderService.antt =====
-- internal/order: placing and cancelling orders, and settling what was matched.
pub mod Symbols
pub mod Updates
pub mod Settlement
pub mod Handlers
pub mod Placing
pub mod Accounts
