-- ===== src/MarketData.antt =====
-- internal/marketdata: tick storage and candle aggregation.
pub mod Ring
pub mod Aggregator
pub mod Multiframe
