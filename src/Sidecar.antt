-- ===== src/Sidecar.antt =====
-- cmd/sidecar/main.go: the server that starts, stops and pauses node containers and keeps the cluster's
-- membership in step with them.
pub mod Registry
pub mod Docker
pub mod Cluster
pub mod Lifecycle
pub mod Status
pub mod Scenarios
pub mod Handlers
pub mod Ports
pub mod Pauses
pub mod Restores
pub mod Quorum
pub mod Stops
pub mod Presets
pub mod Requests
pub mod PeerAddrs
pub mod Examples
