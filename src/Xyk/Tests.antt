-- ===== src/Xyk/Tests.antt =====
-- Runs of pallets/pool-xyk/src, and its theorems at concrete pools. The arithmetic is that of
-- `floored`.
use sora2_parachain.Prelude.{ℕ, ◌+◌, ◌-◌, ◌*◌, ◌/◌, ◌≤◌, ◌≡◌, ◌⊎◌, refl, arith, min, eq_ℕ, eq_pair}
use sora2_parachain.Common.Result.{ok, err}
use sora2_parachain.Common.Fixed.{one}
use sora2_parachain.Common.Fixed.Floored.{floored, floored-IsFloored}
use sora2_parachain.Technical.{ensure_tech_account_registered, tech_account_id_to_account_id}
use sora2_parachain.Common.Errors.{DispatchError}
use sora2_parachain.Common.Currency.{Sheet}
use sora2_parachain.Common.SwapAmounts.{SwapOutcome, SwapAmount, with_desired_input}
use sora2_parachain.Common.Primitives.{signed}
use sora2_parachain.Xyk.Defs.{State, tech_account_from_dex_and_asset_pair}
use sora2_parachain.Xyk.Fixtures.{alice, pair, pool, xyk_env, sample, ignored, tokens}
use sora2_parachain.Xyk.Pallet.Trades.{exchange}
use sora2_parachain.Xyk.Pallet.Pools.{initialize_pool}
use sora2_parachain.Xyk.Exchange.{initialize_pool-registered}
use sora2_parachain.Xyk.Math.{
  get_fee_for_source, get_fee_for_destination, calculate_quote, calculate_optimal_deposit,
  calc_deposit_liquidity_1, calc_output_for_exact_input,
}
use sora2_parachain.Xyk.Math.Output.{calc_output-from_destination, calc_output-from_source}
use sora2_parachain.Xyk.Math.Deposit.{
  calculate_optimal_deposit_bounds, calc_deposit_liquidity_bounds,
}

-- What a pool of 100 and 200 tokens gives for 10.
abbrev given_out : ℕ
given_out = 18_181_818_181_818_181_818

calc_output-from_destination_example :
    (tokens 10 * tokens 200 / (tokens 100 + tokens 10) ≤ given_out)
    × (given_out * ((tokens 100 + tokens 10) * one)
        ≤ tokens 10 * tokens 200 * one + given_out * tokens 200)
    × (given_out * 3 / 1000 ≡ given_out * 3 / 1000)
unfolding calc_output_for_exact_input floored get_fee_for_destination
calc_output-from_destination_example =
    calc_output-from_destination floored floored-IsFloored (tokens 100) (tokens 200) (tokens 10)
      refl

-- The same with the fee of 0.03 tokens left out of the input.
abbrev rest_out : ℕ
rest_out = 18_132_217_877_602_982_631

calc_output-from_source_example :
    (tokens 3 / 100 ≡ tokens 10 * 3 / 1000)
    × ((tokens 10 - tokens 3 / 100) * tokens 200 / (tokens 100 + (tokens 10 - tokens 3 / 100))
        ≤ rest_out)
    × (rest_out * ((tokens 100 + (tokens 10 - tokens 3 / 100)) * one)
        ≤ (tokens 10 - tokens 3 / 100) * tokens 200 * one + rest_out * tokens 200)
unfolding calc_output_for_exact_input floored get_fee_for_source
calc_output-from_source_example =
    calc_output-from_source floored floored-IsFloored (tokens 100) (tokens 200) (tokens 10) refl

calculate_optimal_deposit_bounds_example :
    (tokens 5 ≤ tokens 10)
    × (tokens 10 ≤ tokens 10)
    × (tokens 5 ≤ tokens 20)
    × (tokens 20 ≤ tokens 30)
    × ((tokens 10 ≡ tokens 10)
          × (calculate_quote floored (tokens 10) (tokens 100) (tokens 200) ≡ ok (tokens 20))
        ⊎ (tokens 20 ≡ tokens 30)
          × (calculate_quote floored (tokens 30) (tokens 200) (tokens 100) ≡ ok (tokens 10)))
unfolding calculate_optimal_deposit calculate_quote floored
calculate_optimal_deposit_bounds_example =
    calculate_optimal_deposit_bounds floored floored-IsFloored (tokens 50) (tokens 100) (tokens 200)
      (tokens 10) (tokens 30) (tokens 5) (tokens 5) (omega arith) (omega arith) refl

calc_deposit_liquidity_bounds_example :
    (min (tokens 10 * tokens 50 / tokens 100) (tokens 20 * tokens 50 / tokens 200) ≤ tokens 5)
    × (tokens 5 * (tokens 100 * one / tokens 50) ≤ tokens 10 * one)
    × (tokens 5 * (tokens 200 * one / tokens 50) ≤ tokens 20 * one)
unfolding calc_deposit_liquidity_1 calculate_optimal_deposit calculate_quote floored
calc_deposit_liquidity_bounds_example =
    calc_deposit_liquidity_bounds floored floored-IsFloored (tokens 50) (tokens 100) (tokens 200)
      (tokens 10) (tokens 30) (tokens 5) (tokens 5) refl

abbrev wanted : SwapAmount ℕ
wanted = with_desired_input (tokens 10) (tokens 18)

abbrev swapped : State ℕ Sheet
swapped = (exchange xyk_env ignored alice 2 0 10 11 wanted sample).1

abbrev returned : SwapOutcome ℕ
returned = record { amount = 18_132_217_877_602_982_631; fee = 30_000_000_000_000_000 }

initialize_pool-registered_example :
    (e : DispatchError) × (initialize_pool xyk_env (signed alice) 0 10 11 sample ≡ (err e, sample))
unfolding tech_account_from_dex_and_asset_pair tech_account_id_to_account_id
    ensure_tech_account_registered
initialize_pool-registered_example =
    initialize_pool-registered xyk_env ignored alice 0 10 11 500 pair pool sample refl refl refl
