-- ===== src/Agent.antt =====
-- cmd/agent/main.go and internal/agent/client.go: the program of a site. The network, the local
-- media server and the processes are outcomes that the functions take.
pub mod Proxy
pub mod Client
pub mod Media
pub mod Playback
pub mod Inventory
pub mod Onvif
pub mod Dispatch
mod Examples
