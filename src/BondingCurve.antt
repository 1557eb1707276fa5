-- ===== src/BondingCurve.antt =====
-- The pallet `bonding-curve-pool` (pallets/bonding-curve-pool/src/lib.rs): it mints the main asset for
-- a collateral, and burns it for the collateral, at a price that grows with what was issued.
pub mod Defs
pub mod Prices
pub mod Reserves
pub mod Trades
pub mod RoundTrip
pub mod Agreement
mod Fixtures
mod Tests
