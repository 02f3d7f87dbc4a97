-- ===== src/Media/Segments.antt =====
-- internal/media/recording.go: the recorded segments, from the staging directory to the inventory.
pub mod Sidecar
pub mod Scan
mod Examples
