-- ===== src/Xyk/PairSwap/Tests.antt =====
-- Runs of pallets/pool-xyk/src/action_pair_swap.rs and pallets/technical/src/lib.rs, and their
-- theorems at a concrete pool.
use sora2_parachain.Prelude.{List, ℕ, ◌≡◌, refl, Bool, false, none, some, [], ◌∷◌, eq_ℕ, eq_pair}
use sora2_parachain.Common.Errors.{DispatchError, PermissionsError}
use sora2_parachain.Common.Currency.{Sheet}
use sora2_parachain.Common.Fixed.Floored.{floored}
use sora2_parachain.Common.Primitives.{TechAccountId}
use sora2_parachain.Permissions.Defs.{eq_scope, binary_search}
use sora2_parachain.Technical.{
  tech_account_id_to_account_id, ensure_tech_account_registered,
  register_tech_account_id_if_not_exist, transfer,
}
use sora2_parachain.Technical
use sora2_parachain.Technical.Swaps.{create_swap, create_swap-atomic}
use sora2_parachain.Common.Effects.{with_transaction}
use sora2_parachain.Permissions.Operations.{check_permission_with_scope}
use sora2_parachain.Xyk.Bounds.{Bounds, calculated, desired}
use sora2_parachain.Xyk.Math.{
  calc_output_for_exact_input, calc_input_for_exact_output, get_fee_for_source,
}
use sora2_parachain.Xyk.Bounds
use sora2_parachain.Assets.Transfers.{free_balance, transfer_from}
use sora2_parachain.Assets.Operations.{ensure_asset_exists, check_permission_maybe_with_parameters}
use sora2_parachain.Xyk.Defs.{PairSwapAction, decide_is_fee_from_destination, get_fee_account}
use sora2_parachain.Xyk.Fixtures.{
  alice, tokens, pool, fee_pool, xyk_env, technical_state, sample, frozen, ignored,
}
use sora2_parachain.Xyk.PairSwap.Prepare.{prepare_and_validate}
use sora2_parachain.Xyk.PairSwap.Reserve.{pair_swap_rules}
use sora2_parachain.Xyk.PairSwap.Inversion.{with_accounts}
use sora2_parachain.Xyk.PairSwap.Limits.{
  HasBalances, HasSettledInput, HasSettledOutput, exact_input_lem, exact_output_lem,
}

abbrev swap_of : Bounds → Bounds → PairSwapAction
swap_of in_amount out_amount = record {
  client_account = none;
  receiver_account = none;
  pool_account = pool;
  source = record { asset = 10; amount = in_amount };
  destination = record { asset = 11; amount = out_amount };
  fee = none;
  fee_account = none;
  get_fee_from_destination = none;
}

abbrev prepared_of : Bounds → Bounds → ℕ → PairSwapAction
prepared_of in_amount out_amount fee = record (swap_of in_amount out_amount) {
  client_account = some alice;
  receiver_account = some alice;
  fee = some fee;
  fee_account = some fee_pool;
  get_fee_from_destination = some false;
}

abbrev out_amount : ℕ
out_amount = 18_132_217_877_602_982_631

abbrev fee_in : ℕ
fee_in = 30_000_000_000_000_000

exact_input_lem_example :
    (ss st tt' out : ℕ) × (side : Bool) × HasBalances xyk_env alice
      (swap_of (desired (tokens 10)) (Bounds.min (tokens 18)))
      sample
      ss
      st
      tt'
    × HasSettledInput xyk_env ss st tt'
        (with_accounts alice (swap_of (desired (tokens 10)) (Bounds.min (tokens 18))))
        (prepared_of (desired (tokens 10)) (calculated out_amount) fee_in)
        (tokens 10)
        (tokens 18)
        out
        side
unfolding prepare_and_validate floored ensure_tech_account_registered free_balance
    ensure_asset_exists decide_is_fee_from_destination calc_output_for_exact_input
    get_fee_for_source get_fee_account Bounds.unwrap
exact_input_lem_example =
    exact_input_lem xyk_env alice (tokens 10) (tokens 18)
      (swap_of (desired (tokens 10)) (Bounds.min (tokens 18)))
      (prepared_of (desired (tokens 10)) (calculated out_amount) fee_in) sample refl refl refl

abbrev in_amount : ℕ
in_amount = 5_278_994_879_374_967_006

abbrev fee_of_in : ℕ
fee_of_in = 15_836_984_638_124_901

exact_output_lem_example :
    (ss st tt' x_in : ℕ) × (side : Bool) × HasBalances xyk_env alice
      (swap_of (Bounds.max (tokens 6)) (desired (tokens 10)))
      sample
      ss
      st
      tt'
    × HasSettledOutput xyk_env ss st tt'
        (with_accounts alice (swap_of (Bounds.max (tokens 6)) (desired (tokens 10))))
        (prepared_of (calculated in_amount) (desired (tokens 10)) fee_of_in)
        (tokens 6)
        (tokens 10)
        x_in
        side
unfolding prepare_and_validate floored ensure_tech_account_registered free_balance
    ensure_asset_exists decide_is_fee_from_destination calc_input_for_exact_output
    get_fee_for_source get_fee_account Bounds.unwrap
exact_output_lem_example =
    exact_output_lem xyk_env alice (tokens 6) (tokens 10)
      (swap_of (Bounds.max (tokens 6)) (desired (tokens 10)))
      (prepared_of (calculated in_amount) (desired (tokens 10)) fee_of_in) sample refl refl refl

-- The pool may not transfer: the last step of the reservation fails.
abbrev good_swap : PairSwapAction
good_swap = swap_of (desired (tokens 10)) (Bounds.min (tokens 18))

create_swap-atomic_example :
    (create_swap (pair_swap_rules xyk_env) ignored (some alice) good_swap frozen).1 ≡ frozen
unfolding create_swap pair_swap_rules ensure_tech_account_registered free_balance
    ensure_asset_exists decide_is_fee_from_destination calc_output_for_exact_input
    get_fee_for_source floored get_fee_account Bounds.unwrap with_transaction transfer_from
    check_permission_maybe_with_parameters check_permission_with_scope binary_search
create_swap-atomic_example =
    create_swap-atomic (pair_swap_rules xyk_env) ignored (some alice) good_swap frozen
      {e = DispatchError.permissions PermissionsError.forbidden} (λ source. refl) refl

abbrev unregistered : Technical.State ℕ Sheet
unregistered = record technical_state { tech_accounts = (500, pool) ∷ [] }

abbrev genesis_accounts : List (ℕ × TechAccountId)
genesis_accounts = (501, fee_pool) ∷ []
