-- ===== src/App.antt =====
-- internal/app: the command that makes keys, and the start and the end of a node.
pub mod Keygen
pub mod Setup
pub mod Shutdown
pub mod Run
