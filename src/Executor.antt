-- ===== src/Executor.antt =====
-- internal/executor: tracked positions, the order dispatcher and the execution telemetry.
pub mod Tracker
pub mod Dispatcher
pub mod Telemetry
