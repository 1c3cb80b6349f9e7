-- ===== src/Client.antt =====
-- The Python client, client-py/.
pub mod Framing
pub mod Reception
pub mod Writer
pub mod Reader
pub mod Encodes
pub mod Vault
pub mod Cache
pub mod Failures
pub mod Codes
pub mod Names
pub mod Act
pub mod Session
pub mod Requests
pub mod Login
pub mod Exchange
pub mod Upkeep
pub mod Sync
pub mod Commands
pub mod Line
pub mod Console
pub mod Cryptography
pub mod Start
pub mod Main
