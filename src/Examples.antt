-- ===== src/Examples.antt =====
-- The theorems at concrete inputs, and tests of the definitions.
mod Samples
mod Codec
mod Storage
mod Sessions
mod Requests
mod Clients
mod Devices
mod Vaults
mod Logins
mod Transfers
mod Joints
mod Consoles
