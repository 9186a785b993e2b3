-- ===== src/Remote.antt =====
-- Package internal/remote: the HTTP and WebSocket service for remote targets.
pub mod Protocol
pub mod Names
pub mod Registry
