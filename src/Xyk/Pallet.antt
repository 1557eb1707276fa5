-- ===== src/Xyk/Pallet.antt =====
-- pallets/pool-xyk/src/lib.rs: the functions and the extrinsics of the pallet.
pub mod Pools
pub mod Trades
