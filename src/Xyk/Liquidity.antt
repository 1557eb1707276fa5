-- ===== src/Xyk/Liquidity.antt =====
-- pallets/pool-xyk/src/action_deposit_liquidity.rs, action_withdraw_liquidity.rs and
-- action_poly_swap.rs: liquidity that enters and leaves a pool.
pub mod Deposit
pub mod Withdraw
pub mod Actions
pub mod Withdrawal
pub mod Marking
pub mod Atomic
pub mod Limits
pub mod Entry
pub mod Desired
pub mod Deposits
mod Tests
