-- ===== src/Common/Errors.antt =====
-- The error enums of the pallets (each pallet's `pub enum Error<T>`), joined as `DispatchError`.
-- `external` stands for an error that a third-party pallet returns.
use sora2_parachain.Prelude.{ℕ}

pub data PermissionsError : Type 0 where
  permission_not_found permission_not_owned permission_already_exists : PermissionsError
  forbidden inc_ref_error : PermissionsError

pub data DexManagerError : Type 0 where
  dex_id_already_exists dex_does_not_exist invalid_fee_value invalid_account_id : DexManagerError

pub data TradingPairError : Type 0 where
  trading_pair_exists forbidden_base_asset_id identical_asset_ids : TradingPairError
  trading_pair_doesnt_exist : TradingPairError

pub data AssetsError : Type 0 where
  asset_id_already_exists asset_id_not_exists insufficient_balance : AssetsError
  invalid_asset_symbol invalid_asset_name invalid_precision : AssetsError
  asset_supply_is_not_mintable invalid_asset_owner inc_ref_error : AssetsError

pub data TechnicalError : Type 0 where
  tech_account_id_is_not_registered not_implemented decode_account_id_failed : TechnicalError
  associated_account_id_not_found operation_with_abstract_checking : TechnicalError

pub data XykError : Type 0 where
  fixed_wrapper_calculation_failed impossible_to_decide_valid_pair_values : XykError
  source_and_client_account_do_not_match account_balance_is_invalid : XykError
  pool_is_empty pool_is_invalid zero_value_in_amount_parameter : XykError
  pool_pair_ratio_and_pair_swap_ratio_is_different : XykError
  calculated_value_is_out_of_desired_bounds impossible_to_decide_asset_pair_amounts : XykError
  pair_swap_action_fee_is_smaller_than_recommended : XykError
  source_balance_is_not_large_enough target_balance_is_not_large_enough : XykError
  pool_became_invalid_after_operation fee_account_is_invalid : XykError
  unable_to_derive_fee_account assets_must_not_be_same : XykError
  base_asset_is_not_matched unable_to_get_xor_part : XykError
  invalid_asset_for_liquidity_marking initial_ratio_must_be_defined : XykError
  invalid_deposit_liquidity_destination_amount range_values_is_invalid : XykError
  invalid_deposit_liquidity_basic_asset_amount : XykError
  invalid_deposit_liquidity_target_asset_amount : XykError
  calculated_value_is_not_meets_required_boundaries : XykError
  this_case_is_not_supported impossible_to_decide_deposit_liquidity_amounts : XykError
  minimum_liquidity_is_smaller_than_recommended : XykError
  destination_amount_of_liquidity_is_not_large_enough : XykError
  invalid_withdraw_liquidity_basic_asset_amount : XykError
  invalid_withdraw_liquidity_target_asset_amount : XykError
  source_balance_of_liquidity_tokens_is_not_large_enough : XykError
  unable_to_convert_asset_to_tech_asset_id asset_decoding_error : XykError
  invalid_minimum_bound_value_of_balance pool_initialization_is_invalid : XykError
  pool_is_already_initialized : XykError
  source_base_amount_is_not_large_enough target_base_amount_is_not_large_enough : XykError

pub data LiquidityProxyError : Type 0 where
  unavailable_exchange_path max_fee_exceeded invalid_fee_value : LiquidityProxyError
  insufficient_liquidity aggregation_error calculation_error : LiquidityProxyError
  slippage_not_tolerated : LiquidityProxyError

pub data BondingCurveError : Type 0 where
  calculate_price_failed cant_exchange_on_itself not_enough_reserves : BondingCurveError
  cant_exchange : BondingCurveError

pub data MockSourceError : Type 0 where
  pair_does_not_exist insufficient_input_amount insufficient_output_amount : MockSourceError
  insufficient_liquidity calculation_error inc_ref_error : MockSourceError

pub data DispatchError : Type 0 where
  permissions : PermissionsError → DispatchError
  dex_manager : DexManagerError → DispatchError
  trading_pair : TradingPairError → DispatchError
  assets : AssetsError → DispatchError
  technical : TechnicalError → DispatchError
  xyk : XykError → DispatchError
  liquidity_proxy : LiquidityProxyError → DispatchError
  bonding_curve : BondingCurveError → DispatchError
  mock_source : MockSourceError → DispatchError
  bad_origin cannot_lookup : DispatchError
  -- Not an error of the source: a panic, which aborts the call.
  panicked : DispatchError
  external : ℕ → DispatchError
