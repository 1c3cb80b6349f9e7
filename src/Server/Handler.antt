-- ===== src/Server/Handler.antt =====
-- `handle_client` of server-py/server.py: the handlers of a frame in each state, one round of the
-- loop, and the whole connection.
pub mod Environment
pub mod Fragments
pub mod Login
pub mod Requests
pub mod Loop
pub mod Serves
pub mod Keeps
pub mod Sequence
pub mod Storage
pub mod Credentials
pub mod Access
pub mod Steady
pub mod Variables
pub mod Updates
pub mod Reassembly
pub mod Secrecy
pub mod Chunks
