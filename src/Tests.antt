-- ===== src/Tests.antt =====
-- The theorems at concrete inputs, with whole numbers for decimals.
pub mod Data
pub mod Books
pub mod Funds
pub mod Matching
pub mod Delivery
pub mod Services
pub mod Leaders
