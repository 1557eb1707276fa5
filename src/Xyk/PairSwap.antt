-- ===== src/Xyk/PairSwap.antt =====
-- pallets/pool-xyk/src/action_pair_swap.rs: the swap of one asset of a pool for the other.
pub mod Prepare
pub mod Reserve
pub mod Inversion
pub mod Limits
pub mod Moves
mod Tests
