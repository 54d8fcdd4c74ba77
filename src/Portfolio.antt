-- ===== src/Portfolio.antt =====
-- internal/portfolio: the guards on the positions as a whole.
pub mod Correlation
pub mod Sizing
