-- ===== src/Assets.antt =====
-- The pallet `assets` (pallets/assets/src/lib.rs): registered assets, their owners, and the calls
-- that move, mint and burn them.
pub mod Defs
pub mod Operations
pub mod Transfers
pub mod Authority
pub mod Registration
pub mod Mintable
mod Tests
