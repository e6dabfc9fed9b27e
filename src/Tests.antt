-- ===== src/Tests.antt =====
-- A small instance of OpenSSL, and runs of the program on it: the theorems applied at concrete inputs.
pub mod Hex
pub mod Toy
pub mod Runs
pub mod Protocol
pub mod Vendors
pub mod Revocation
pub mod Registry
pub mod Ends
