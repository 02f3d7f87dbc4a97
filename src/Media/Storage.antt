-- ===== src/Media/Storage.antt =====
-- internal/media/storage.go: the identity that binds a directory to the machine, and the reserve of
-- free space. A file is absent, unreadable, or holds a text (code points).
pub mod Identity
pub mod Space
