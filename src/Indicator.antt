-- ===== src/Indicator.antt =====
-- internal/indicator: streaming indicators, which take one value at a time.
pub mod Ema
pub mod Atr
pub mod Sma
pub mod Rsi
pub mod Bollinger
