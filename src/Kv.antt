-- ===== src/Kv.antt =====
-- The package kvstore/, the replicated key-value store, and cmd/kvstore, its HTTP server.
pub mod Store
pub mod Server
pub mod Examples
