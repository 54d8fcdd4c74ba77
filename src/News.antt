-- ===== src/News.antt =====
-- internal/news: the calendar of economic events and the filter that stops trading around them.
pub mod Calendar
pub mod Blackout
