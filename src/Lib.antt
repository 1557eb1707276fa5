-- ===== src/Lib.antt =====
-- The SORA 2 parachain: a Substrate chain for the exchange Polkaswap. This development models its
-- pallets for permissions, assets, exchanges, trading pairs, technical accounts and the
-- constant-product pools, the bonding curve, the gateway to the sources of liquidity, the liquidity proxy that splits a
-- trade between them, and the numbers and primitives that they share.
--
-- How the parts interact. Storage is a record per pallet that contains the storage of the pallets it
-- calls: `technical` holds `assets`, which holds `permissions` and the currencies. A call that can fail
-- and write is an `Effect` (Common/Effects): it returns a result and the storage, also after an error,
-- because FRAME keeps what a call wrote unless `with_transaction` rolls it back. A call that only reads
-- is a function of the storage.
--
-- - Prelude: library names passed on, Boolean tests, lists and integers over the native naturals.
-- - Common: common/src/lib.rs (`with_transaction`), fixed_wrapper.rs (Fixed), swap_amount.rs
--   (SwapAmounts), primitives.rs (Primitives), utils.rs (Utils), the interfaces
--   of traits.rs (Sources), and the error enums of the pallets (Errors).
-- - Permissions: pallets/permissions/src/lib.rs. Operations has the functions of the pallet under their
--   own names; Genesis has `GenesisConfig::build`; Invariant has the reachable states.
-- - Assets: pallets/assets/src/lib.rs. Operations has the registration and the checks of authority,
--   Transfers has what moves or changes balances, and the extrinsics as `..._call`.
-- - DexManager: pallets/dex-manager/src/lib.rs. TradingPairs: pallets/trading-pair/src/lib.rs.
-- - Technical: pallets/technical/src/lib.rs; Swaps has `create_swap` over the traits `SwapAction` and
--   `SwapRulesValidation` of common/src/traits.rs, which are a record that the client fills.
-- - Xyk: pallets/pool-xyk/src. Math is math.rs, Bounds is bounds.rs, Defs is operations.rs and utils.rs.
--   PairSwap is action_pair_swap.rs: Prepare is `prepare_and_validate`, Reserve is `reserve`, which
--   gives the record of swap rules to `technical`. Liquidity has the other actions: Deposit and Withdraw
--   are the computations of action_deposit_liquidity.rs and action_withdraw_liquidity.rs, and Actions
--   has their calls on the storage and the joined action of action_poly_swap.rs. Pallet is lib.rs: Pools initialises pools, and Trades has the
--   deposits, withdrawals, exchanges and quotes.
-- - DexApi: pallets/dex-api/src/lib.rs. The sources are records of the interface `LiquiditySource`; the
--   pallet is one of `LiquidityRegistry`, for its clients. Listing is about the sources of a trade.
-- - LiquidityProxy: pallets/liquidity-proxy/src. Algo is algo.rs, with `find_distribution`; its children
--   follow the tables from a cell (Cell) to a row (Rows), all rows (Optimal, Tables) and the result
--   (Best). The other modules are lib.rs over any `LiquidityRegistry`: Paths, the two ways to split a
--   trade (FastSplit, GenericSplit), Quotes, and Exchanges with the extrinsic, where the functions of
--   the pallet and those of its trait stand beside each other. The quotes of both are one definition
--   with the addition of the fees as an argument, and their exchanges are written out separately.
--   The calls of the markets and of the samples pass a panic on, and replace any other error as the
--   source does.
--
-- - BondingCurve: pallets/bonding-curve-pool/src/lib.rs. Prices has the prices of the curve, Reserves the
--   purchase (`BuyMainAsset`), and Trades the sale and the pallet as a source of liquidity. The gateway
--   that a purchase calls for the distribution of free reserves is a `LiquiditySource` over the whole
--   storage, whose part that the pallet does not know is `rest`.
-- - MockSource: pallets/mock-liquidity-source/src/lib.rs. Its prices and quotes are in the module itself,
--   and Calls has what writes. Technical/Assign has the loop over permissions that both this pallet and
--   the bonding curve run.
--
-- Numbers. Balances are natural numbers. `FixedWrapper` is the bits of an `i128` fixed-point number with
-- 18 digits, or an error; a conversion from `u128` takes the balance for the bits and fails above
-- `i128::MAX`. Plain subtractions of `u128` wrap at 128 bits, as in a release build. No loop of the
-- modelled code needs fuel: all of them are structural recursions on lists.
--
-- Parameters. Code that is not in the repository is a parameter: `frame_system` (reference counters,
-- nonces), the currencies behind `T::Currency`, the hashes, the decoding of account ids, and `fixnum`. Of
-- `fixnum` the theorems use only `IsFloored`: sums and differences are exact, products and quotients of
-- numbers that are not negative are rounded down, and overflow is an error. Common/Fixed/Floored has an
-- instance, and Common/Currency and Common/FrameSystem have instances of the others.
--
-- Quotes. The interface of a source has a quote that only reads. The quotes of pool-xyk try the exchange
-- and roll it back, so they too leave the storage as it was.
--
-- Not modelled: the node, the runtime's configuration, the RPC interfaces, weights, benchmarks and mocks,
-- which are input and output, macros of the framework, generated constants, or test code.
pub mod Prelude
pub mod Common
pub mod Permissions
pub mod Xyk
pub mod Assets
pub mod DexApi
pub mod DexManager
pub mod TradingPairs
pub mod Technical
pub mod LiquidityProxy
pub mod BondingCurve
pub mod MockSource
