-- ===== src/Server.antt =====
-- The server, server-py/.
pub mod Protocol
pub mod Wire
pub mod Database
pub mod Payloads
pub mod Connection
pub mod Handler
