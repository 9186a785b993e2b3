-- ===== src/Server.antt =====
-- Package internal/server: the PTY multiplexer that local and remote front ends share.
pub mod Cleaner
pub mod Keys
pub mod LocalStream
pub mod Marker
pub mod Transcript
pub mod Protocol
pub mod Collector
pub mod Store
pub mod Snapshot
pub mod Uses
pub mod Format
pub mod Service
pub mod Daemon
