-- ===== src/Broker.antt =====
-- internal/broker: the connection to the broker.
pub mod Lifecycle
pub mod Reconnect
pub mod Mock
