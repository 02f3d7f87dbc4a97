-- ===== src/Store.antt =====
-- internal/store/store.go: the SQL statements as functions on tables. A table is the list of its
-- rows. An instant is a number, and `now` is NOW(6) of the database.
pub mod Recordings
pub mod Enrollment
pub mod Devices
pub mod Cameras
mod Examples
