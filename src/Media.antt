-- ===== src/Media.antt =====
-- internal/media: storage, recordings and the supervised FFmpeg workers.
pub mod Storage
pub mod Workers
pub mod Segments
mod Examples
