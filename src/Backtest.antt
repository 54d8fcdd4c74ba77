-- ===== src/Backtest.antt =====
-- internal/backtest: the engine that runs ticks through the whole pipeline, and the report on a run.
pub mod Metrics
pub mod Engine
