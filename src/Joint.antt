-- ===== src/Joint.antt =====
-- Client and server together, each fed what the other writes.
pub mod Rounds
pub mod Admission
pub mod Served
pub mod Handshake
pub mod Requests
pub mod Storing
pub mod Fetching
pub mod Devices
pub mod Refusal
pub mod Rejected
