-- ===== src/LiquidityProxy.antt =====
-- The pallet `liquidity-proxy` (pallets/liquidity-proxy/src).
pub mod Algo
pub mod Config
pub mod Paths
pub mod Shares
pub mod FastSplit
pub mod GenericSplit
pub mod Quotes
pub mod Exchanges
mod Fixtures
mod Tests
