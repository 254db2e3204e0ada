-- ===== src/Domain.antt =====
-- internal/domain: the models and the events that the services share.
pub mod Models
pub mod Labels
pub mod Events
