-- ===== src/Permissions.antt =====
-- The pallet `permissions` (pallets/permissions/src/lib.rs): who owns and who holds a permission.
-- The vector of a holder is kept sorted, since it is read by binary search.
pub mod Defs
pub mod Operations
pub mod Sorted
pub mod Genesis
pub mod Invariant
pub mod Access
pub mod Ownership
mod Tests
