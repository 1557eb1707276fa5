-- ===== src/DexApi.antt =====
-- The pallet `dex-api` (pallets/dex-api/src/lib.rs): one gateway to the sources of liquidity. It
-- passes a call on to the source that the call names, and lists the sources that can serve a trade.
pub mod Listing
mod Tests
use sora2_parachain.Prelude.{ℕ, Bool, ◌&&◌, Option, none, some, List, [], ◌∷◌, if◌then◌else◌}
use sora2_parachain.Common.Errors.{DispatchError, bad_origin}
use sora2_parachain.Common.Result.{Result, ok, err}
use sora2_parachain.Common.Result
use sora2_parachain.Common.Storage.{unwrap_or}
use sora2_parachain.Common.Effects.{Effect, ◌>>=◌, ◌>>◌, modify}
use sora2_parachain.Common.FrameSystem.{ensure_signed}
use sora2_parachain.Common.Primitives.{
  LiquiditySourceType, xyk_pool, bonding_curve_pool, multicollateral_bonding_curve_pool, mock_pool,
  mock_pool2, mock_pool3, mock_pool4, Origin, signed, eq_source,
}
use sora2_parachain.Common.SwapAmounts.{
  SwapAmount, SwapVariant, desired_input, desired_output, SwapOutcome, with_variant,
}
use sora2_parachain.Common.Utils.{matches_index}
use sora2_parachain.Common.Sources.{LiquiditySource, LiquidityRegistry, SourceId, SourceFilter}
use sora2_parachain.DexManager.{DexInfos, ensure_dex_exists}

-- `DirectExchange`
pub record DirectExchange : Type 0 where
  pub sender : ℕ
  pub receiver : ℕ
  pub dex_id : ℕ
  pub source_type : LiquiditySourceType
  pub input_asset_id : ℕ
  pub output_asset_id : ℕ
  pub input_amount : ℕ
  pub output_amount : ℕ
  pub fee : ℕ

-- The sources of the runtime, by their exchange, and the parts of the storage `S` that the pallet
-- reads or writes.
pub record Env (S : Type 0) : Type 0 where
  pub xyk : LiquiditySource ℕ S
  pub bonding_curve : LiquiditySource ℕ S
  pub multicollateral : LiquiditySource ℕ S
  pub mock : LiquiditySource ℕ S
  pub mock2 : LiquiditySource ℕ S
  pub mock3 : LiquiditySource ℕ S
  pub mock4 : LiquiditySource ℕ S
  pub enabled_source_types : S → List LiquiditySourceType
  pub put_source_types : List LiquiditySourceType → S → S
  pub dex_infos : S → DexInfos
  pub deposit_event : DirectExchange → S → S

abbrev pub source_id : ℕ → LiquiditySourceType → SourceId
source_id dex_id t = record { dex_id = dex_id; liquidity_source_index = t }

-- The amounts of the event.
abbrev pub amounts_of : SwapVariant → ℕ → SwapOutcome ℕ → ℕ × ℕ
amounts_of desired_input amount o = (amount, o.amount)
amounts_of desired_output amount o = (o.amount, amount)

module _ {S : Type 0} (env : Env S) where
  -- The source that the macros of `can_exchange`, `quote` and `exchange` choose.
  unfoldable pub dispatch : LiquiditySourceType → LiquiditySource ℕ S
  dispatch xyk_pool = env.xyk
  dispatch bonding_curve_pool = env.bonding_curve
  dispatch multicollateral_bonding_curve_pool = env.multicollateral
  dispatch mock_pool = env.mock
  dispatch mock_pool2 = env.mock2
  dispatch mock_pool3 = env.mock3
  dispatch mock_pool4 = env.mock4

  unfoldable pub can_exchange : SourceId → ℕ → ℕ → S → Bool
  unfolding dispatch
  can_exchange id = (dispatch id.liquidity_source_index).can_exchange id.dex_id

  unfoldable pub quote : SourceId → ℕ → ℕ → SwapAmount ℕ → S → Result DispatchError (SwapOutcome ℕ)
  unfolding dispatch
  quote id = (dispatch id.liquidity_source_index).quote id.dex_id

  unfoldable pub exchange : ℕ → ℕ → SourceId → ℕ → ℕ → SwapAmount ℕ → Effect S (SwapOutcome ℕ)
  unfolding dispatch
  exchange sender receiver id =
      (dispatch id.liquidity_source_index).exchange sender receiver id.dex_id

  unfoldable pub get_supported_types : S → List LiquiditySourceType
  get_supported_types = env.enabled_source_types

  -- The test of the `filter_map`.
  unfoldable pub is_available : SourceFilter → ℕ → ℕ → S → LiquiditySourceType → Bool
  unfolding can_exchange matches_index
  is_available filter input output s t =
      matches_index filter t && can_exchange (source_id filter.dex_id t) input output s

  unfoldable pub available : SourceFilter → ℕ → ℕ → S → List LiquiditySourceType → List SourceId
  unfolding is_available
  available filter input output s [] = []
  available filter input output s (t ∷ ts) =
      let rest = available filter input output s ts in
      if is_available filter input output s t then source_id filter.dex_id t ∷ rest else rest

  unfoldable pub list_liquidity_sources :
      ℕ → ℕ → SourceFilter → S → Result DispatchError (List SourceId)
  unfolding available get_supported_types ensure_dex_exists
  list_liquidity_sources input output filter s =
      Result.◌>>◌ (ensure_dex_exists filter.dex_id (env.dex_infos s))
        (ok (available filter input output s (get_supported_types s)))

  -- The pallet as the registry of the sources, for its clients.
  unfoldable pub registry : LiquidityRegistry S
  unfolding can_exchange quote exchange list_liquidity_sources
  registry = record {
    source = record { can_exchange = can_exchange; quote = quote; exchange = exchange };
    list_liquidity_sources = list_liquidity_sources;
  }

  unfoldable pub swap :
      Origin
      → ℕ
      → LiquiditySourceType
      → ℕ
      → ℕ
      → ℕ
      → ℕ
      → SwapVariant
      → Option ℕ
      → Effect S (Unit {0})
  unfolding exchange with_variant
  swap origin dex_id source_type input output amount limit variant receiver = do
    sender ← ensure_signed origin
    o ←
        exchange sender (unwrap_or receiver sender) (source_id dex_id source_type) input output
          (with_variant variant amount limit)
    let (input_amount, output_amount) = amounts_of variant amount o
    modify (
        env.deposit_event (record {
          sender = sender;
          receiver = unwrap_or receiver sender;
          dex_id = dex_id;
          source_type = source_type;
          input_asset_id = input;
          output_asset_id = output;
          input_amount = input_amount;
          output_amount = output_amount;
          fee = o.fee;
        }))

  -- `GenesisConfig::build`
  unfoldable pub genesis_build : List LiquiditySourceType → S → S
  genesis_build = env.put_source_types
