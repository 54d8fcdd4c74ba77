-- ===== src/Risk.antt =====
-- internal/risk: the guardrail between signals and orders, and the market filters before it.
pub mod Manager
pub mod Filters
