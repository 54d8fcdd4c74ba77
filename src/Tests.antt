-- ===== src/Tests.antt =====
-- Runs of the definitions at concrete inputs, with fixed-point numbers for the floats.
pub mod Inputs
mod Model
mod MarketData
mod Risk
mod Filters
mod Indicator
mod Broker
mod Multiframe
mod News
mod Portfolio
mod Dispatcher
mod Storage
mod Strategy
mod Ai
mod Backtest
mod Config
mod Executor
