-- ===== src/Engine.antt =====
-- internal/matching/engine: the order book, the matching loops, the engine and its manager.
pub mod Types
pub mod OrderBook
pub mod Matching
pub mod Manager
