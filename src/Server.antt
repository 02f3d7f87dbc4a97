-- ===== src/Server.antt =====
-- internal/cloud/server.go and the handlers next to it: who may make a request, and what a handler
-- checks before it calls the store or a broker. What crypto/rand, the hash of a token, the cipher
-- and net/url make of a value is a parameter.
pub mod Cookie
pub mod Access
pub mod Live
pub mod Cameras
pub mod Commands
pub mod Pairing
pub mod Sites
mod Examples
