-- ===== src/BondingCurve/Tests.antt =====
-- pallets/bonding-curve-pool/src/lib.rs: runs, and the theorems at concrete states.
use sora2_parachain.Prelude.{ℕ, ◌≡◌, refl, pos, ◌*◌, ◌/◌, ◌≤◌, ℤ, arith}
use sora2_parachain.Common.Errors.{cannot_lookup, cant_exchange_on_itself}
use sora2_parachain.Common.Result.{ok, err}
use sora2_parachain.Common.Effects.{with_transaction}
use sora2_parachain.Permissions.Defs.{binary_search}
use sora2_parachain.Permissions.Operations.{check_permission_with_scope}
use sora2_parachain.Assets.Operations.{ensure_asset_exists, check_permission_maybe_with_parameters}
use sora2_parachain.Common.Fixed.{one}
use sora2_parachain.Common.Fixed.Floored.{floored, floored-IsFloored}
use sora2_parachain.Common.SwapAmounts.{
  outcome_to_balance, SwapAmount, with_desired_input, with_desired_output, outcome,
}
use sora2_parachain.Assets.Transfers.{total_issuance}
use sora2_parachain.Xyk.Fixtures.{alice, tokens}
use sora2_parachain.BondingCurve.Defs.{failed, sell}
use sora2_parachain.BondingCurve.Prices.{price_for_main_asset}
use sora2_parachain.BondingCurve.Trades.{exchange, quote}
use sora2_parachain.BondingCurve.RoundTrip.{
  price_for_main_asset_bounds, price_for_main_asset-sell-buy,
}
use sora2_parachain.BondingCurve.Agreement.{exchange-atomic}
use sora2_parachain.BondingCurve.Fixtures.{bonding_env, bonded, reserves}

abbrev one_xor : SwapAmount ℕ
one_xor = with_desired_output (tokens 1) 0

abbrev hundred_usdt : SwapAmount ℕ
hundred_usdt = with_desired_input (tokens 100) 0

abbrev sell_one : SwapAmount ℕ
sell_one = with_desired_input (tokens 1) 0

purchase_run :
    (exchange bonding_env alice alice 0 11 10 hundred_usdt (bonded 100 1000)).0
    ≡ ok (outcome 1_006_040_259_605_417_370 1_007_047_306_912_329)
unfolding exchange bonding_env with_transaction ensure_asset_exists
    check_permission_maybe_with_parameters check_permission_with_scope binary_search
purchase_run = refl

-- The quote of the same purchase starts from what was issued of USDT.
purchase_quote_run :
    quote bonding_env 0 11 10 hundred_usdt (bonded 100 1000)
    ≡ ok (outcome 1_006_927_652_107_466_403 1_006_927_652_107_466)
unfolding quote bonding_env total_issuance ensure_asset_exists outcome_to_balance
purchase_quote_run = refl

itself_run :
    (exchange bonding_env reserves reserves 0 11 10 hundred_usdt (bonded 100 1000)).0
    ≡ err (failed cant_exchange_on_itself)
unfolding exchange bonding_env with_transaction ensure_asset_exists
    check_permission_maybe_with_parameters check_permission_with_scope binary_search
itself_run = refl

-- The reserves have 10000 USDT, more than the sale of all XOR costs, and the gateway refuses to trade
-- what is over.
exchange-atomic_example :
    (exchange bonding_env alice alice 0 11 10 one_xor (bonded 100 10_000)).1 ≡ bonded 100 10_000
unfolding exchange bonding_env with_transaction ensure_asset_exists
    check_permission_maybe_with_parameters check_permission_with_scope binary_search
exchange-atomic_example =
    exchange-atomic bonding_env alice alice 0 11 10 one_xor (bonded 100 10_000) {e = cannot_lookup}
      {s' = (exchange bonding_env alice alice 0 11 10 one_xor (bonded 100 10_000)).1} refl

-- One XOR at 100 issued costs 99.3002.
price_for_main_asset_bounds_example :
    (p : ℕ) × (◌≡◌ {A = ℤ} (pos 99_300_201_000_000_000_000) (pos p))
    × (tokens 1 * 99_300_000_000_000_000_000 / one ≤ p)
unfolding price_for_main_asset bonding_env floored total_issuance ensure_asset_exists
price_for_main_asset_bounds_example =
    price_for_main_asset_bounds bonding_env floored-IsFloored 10 (tokens 1) (bonded 100 10_000) refl
      refl refl refl

price_for_main_asset-sell-buy_example :
    (p : ℕ) × (◌≡◌ {A = ℤ} (pos 99_300_201_000_000_000_000) (pos p))
    × (price_for_main_asset bonding_env 10 (tokens 1) sell (bonded 101 10_000)
        ≡ ok (pos (800_000_000_000_000_000 * p / one)))
    × (800_000_000_000_000_000 * p / one ≤ p)
unfolding price_for_main_asset bonding_env floored total_issuance ensure_asset_exists
price_for_main_asset-sell-buy_example =
    price_for_main_asset-sell-buy bonding_env floored-IsFloored 10 (tokens 1) (bonded 100 10_000)
      (bonded 101 10_000) refl refl refl refl (omega arith) refl refl refl refl
