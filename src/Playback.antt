-- ===== src/Playback.antt =====
-- Playback of agent recordings: internal/cloud/playback_broker.go.
pub mod Cache
pub mod Broker
pub mod Upload
