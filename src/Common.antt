-- ===== src/Common.antt =====
-- The crate `common`: storage, results and errors that every pallet shares, fixed-point numbers,
-- swap amounts and source filters.
pub mod Errors
pub mod Result
pub mod Storage
pub mod Effects
pub mod Alike
pub mod FrameSystem
pub mod Currency
pub mod Fixed
pub mod SwapAmounts
pub mod Primitives
pub mod Utils
pub mod Sources
