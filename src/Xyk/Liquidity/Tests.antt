-- ===== src/Xyk/Liquidity/Tests.antt =====
-- Runs of the liquidity actions of pallets/pool-xyk/src, and their theorems at a concrete pool.
use sora2_parachain.Prelude.{ℕ, eq_ℕ, ¬◌, ◌+◌, ◌-◌, ◌^◌, ◌≡◌, ◌⊎◌, refl, arith, Option, some, none}
use sora2_parachain.Common.Errors.{DispatchError, PermissionsError}
use sora2_parachain.Common.Result.{ok}
use sora2_parachain.Common.Fixed.Floored.{floored, floored-IsFloored}
use sora2_parachain.Technical.{tech_account_id_to_account_id, ensure_tech_account_registered}
use sora2_parachain.Common.Effects.{with_transaction, Fails}
use sora2_parachain.Common.Storage.{get}
use sora2_parachain.Assets.Transfers.{free_balance, total_issuance, transfer_from}
use sora2_parachain.Assets.Operations.{ensure_asset_exists, check_permission_maybe_with_parameters}
use sora2_parachain.Permissions.Defs.{binary_search}
use sora2_parachain.Permissions.Operations.{check_permission_with_scope}
use sora2_parachain.Xyk.Math.{calc_deposit_liquidity_1, calculate_optimal_deposit, calculate_quote}
use sora2_parachain.Xyk.Liquidity.Deposit.{ranged, settle_first, is_abstract_checking}
use sora2_parachain.Xyk.Liquidity.Entry.{entered, first-wraps}
use sora2_parachain.Xyk.Liquidity.Desired.{prepare_deposit-desired-Fails}
use sora2_parachain.Technical.Swaps.{create_swap}
use sora2_parachain.Xyk.Bounds.{Bounds, desired, calculated, range_from_desired_to_min}
use sora2_parachain.Xyk.Bounds
use sora2_parachain.Common.Currency.{Sheet}
use sora2_parachain.Xyk.Defs.{State, WithdrawLiquidityAction, DepositLiquidityAction}
use sora2_parachain.Xyk.Fixtures.{
  alice, tokens, pool, xyk_env, technical_env, sample, frozen, ignored,
}
use sora2_parachain.Xyk.Liquidity.Actions.{
  prepare_withdraw, prepare_deposit, poly_swap_rules, withdraw_liquidity,
}
use sora2_parachain.Xyk.Liquidity.Marking.{with_record, forget_records}
use sora2_parachain.Xyk.Liquidity.Limits.{HasStock, HasWithdrawn, withdraw_lem}
use sora2_parachain.Xyk.Liquidity.Deposits.{HasFunds, IsFirstDeposit, IsNextDeposit, deposit_lem}
use sora2_parachain.Xyk.Liquidity.Atomic.{IsMarkerOf, poly_swap-atomic}

abbrev withdrawal : WithdrawLiquidityAction
withdrawal = record {
  client_account = none;
  receiver_account_a = none;
  receiver_account_b = none;
  pool_account = pool;
  source = record { asset = 77; amount = desired (tokens 14) };
  destination = record {
    first = record { asset = 10; amount = Bounds.min (tokens 9) };
    second = record { asset = 11; amount = Bounds.min (tokens 19) };
  };
}

abbrev withdrawn : WithdrawLiquidityAction
withdrawn = record withdrawal {
  client_account = some alice;
  receiver_account_a = some alice;
  receiver_account_b = some alice;
  destination = record {
    first = record { asset = 10; amount = calculated 9_999_999_999_999_999_928 };
    second = record { asset = 11; amount = calculated 19_999_999_999_999_999_857 };
  };
}

withdraw_lem_example :
    (repr ks bp tp total x y : ℕ) × (tech_account_id_to_account_id technical_env pool ≡ ok repr)
    × HasStock xyk_env alice repr withdrawal sample ks bp tp total
    × HasWithdrawn alice (tokens 14) ks bp tp total (tokens 9) (tokens 19) x y withdrawn
unfolding prepare_withdraw ensure_tech_account_registered free_balance ensure_asset_exists
    total_issuance floored Bounds.meets_the_boundaries Bounds.unwrap
withdraw_lem_example =
    withdraw_lem xyk_env floored-IsFloored alice (tokens 14) (tokens 9) (tokens 19) withdrawal
      withdrawn sample (with_record xyk_env 500 sample) refl refl refl refl

abbrev deposit : Option ℕ → DepositLiquidityAction
deposit who = ranged who who pool 77 10 11 (tokens 10) (tokens 30) (tokens 1) (tokens 2)

abbrev deposited : DepositLiquidityAction
deposited =
    entered (calculated (tokens 10)) (calculated (tokens 20)) 14_000_000_000_000_000_004
      (deposit (some alice))

deposit_lem_example :
    (repr bs ts bp tp : ℕ) × (tech_account_id_to_account_id technical_env pool ≡ ok repr)
    × HasFunds xyk_env floored-IsFloored alice pool 77 10 11
        (tokens 10)
        (tokens 30)
        (tokens 1)
        (tokens 2)
        repr
        sample
        bs
        ts
        bp
        tp
    × (IsFirstDeposit xyk_env floored-IsFloored alice pool 77 10 11
          (tokens 10)
          (tokens 30)
          (tokens 1)
          (tokens 2)
          deposited
          bs
          ts
          bp
          tp
        ⊎ IsNextDeposit xyk_env floored-IsFloored alice pool 77 10 11
            (tokens 10)
            (tokens 30)
            (tokens 1)
            (tokens 2)
            deposited
            sample
            bs
            ts
            bp
            tp)
unfolding prepare_deposit ensure_tech_account_registered free_balance ensure_asset_exists floored
    total_issuance calc_deposit_liquidity_1 calculate_optimal_deposit calculate_quote Bounds.unwrap
deposit_lem_example =
    deposit_lem xyk_env floored-IsFloored alice pool 77 10 11 (tokens 10) (tokens 30) (tokens 1)
      (tokens 2) deposited sample (with_record xyk_env 500 sample) refl

first-wraps_example :
    settle_first floored (tokens 1) (tokens 1) (ranged none none pool 77 10 11 600 600 600 600)
    ≡ ok (
        entered
          (range_from_desired_to_min 600 600)
          (range_from_desired_to_min 600 600)
          (2 ^ 128 + 599 - 1000)
          (ranged none none pool 77 10 11 600 600 600 600))
unfolding floored
first-wraps_example =
    first-wraps floored none none pool 77 10 11 600 600 600 600 (tokens 1) (tokens 1) 599 refl
      (omega arith) (omega arith) (omega arith) (omega arith)

-- The deposit for a desired amount of liquidity.
abbrev wanting_liquidity : DepositLiquidityAction
wanting_liquidity = record (deposit none) {
  destination = record { asset = 77; amount = desired (tokens 5) };
}

prepare_deposit-desired-Fails_example :
    Fails (prepare_deposit xyk_env (some alice) wanting_liquidity) sample
unfolding is_abstract_checking tech_account_id_to_account_id free_balance ensure_asset_exists
prepare_deposit-desired-Fails_example =
    prepare_deposit-desired-Fails xyk_env alice (tokens 5) 500 (tokens 100) (tokens 200)
      wanting_liquidity sample floored-IsFloored refl refl refl (refl, refl) (omega arith)

-- The refused withdrawal leaves the record of the id 5, which is not that of the marker asset.
abbrev refused : State ℕ Sheet
refused =
    (create_swap (poly_swap_rules xyk_env) ignored (some alice) (withdraw_liquidity withdrawal)
      frozen).1

not_marker : ¬ IsMarkerOf xyk_env 5 (withdraw_liquidity withdrawal)
not_marker (tech, e, (repr, known, same)) = omega arith

poly_swap-atomic_example :
    (forget_records xyk_env refused ≡ forget_records xyk_env frozen)
    × (get refused.technical.assets.asset_records 5 ≡ get frozen.technical.assets.asset_records 5)
unfolding create_swap poly_swap_rules ensure_tech_account_registered free_balance
    ensure_asset_exists total_issuance floored Bounds.meets_the_boundaries Bounds.unwrap
    with_transaction transfer_from check_permission_maybe_with_parameters
    check_permission_with_scope binary_search
poly_swap-atomic_example =
    poly_swap-atomic xyk_env 5 ignored (some alice) (withdraw_liquidity withdrawal) frozen
      {e = DispatchError.permissions PermissionsError.forbidden} not_marker refl
