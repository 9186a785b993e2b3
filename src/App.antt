-- ===== src/App.antt =====
-- Package internal/app: the command line.
pub mod Target
pub mod Operations
