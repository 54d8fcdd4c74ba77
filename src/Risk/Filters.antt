-- ===== src/Risk/Filters.antt =====
-- internal/risk: the market filters that the manager runs before its guards. The verdict of a filter
-- is a Boolean; the text of its reason is left out.
pub mod Session
pub mod Spread
pub mod News
pub mod Velocity
