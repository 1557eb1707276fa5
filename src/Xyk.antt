-- ===== src/Xyk.antt =====
-- The pallet `pool-xyk` (pallets/pool-xyk/src): pools that keep the product of two reserves.
pub mod Math
pub mod Bounds
pub mod Defs
pub mod PairSwap
pub mod Liquidity
pub mod Pallet
pub mod Exchange
pub mod Fixtures
mod Tests
