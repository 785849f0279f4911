-- ===== src/Chaos.antt =====
-- The package chaos/: fault injection between the nodes.
pub mod Network
pub mod Harness
pub mod Live
pub mod Server
pub mod Examples
