-- ===== src/Model.antt =====
-- internal/model: the entities that every other package exchanges.
pub mod Types
pub mod Symbol
pub mod Asset
pub mod Pips
