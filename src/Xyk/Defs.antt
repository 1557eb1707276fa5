-- ===== src/Xyk/Defs.antt =====
-- pallets/pool-xyk/src/operations.rs and utils.rs: the storage of the pallet, the swap action, and
-- the accounts of a pool.
use sora2_parachain.Prelude.{
  ℕ, eq_ℕ, eq_pair, List, Bool, true, false, not, Option, nat_eq, if◌then◌else◌,
}
use sora2_parachain.Common.Errors.{XykError}
use sora2_parachain.Common.Result.{ok, err, ok_or, ensure, ◌>>=◌, ◌>>◌}
use sora2_parachain.Common.Storage.{StorageMap, insert}
use sora2_parachain.Common.Fixed.{Fixnum}
use sora2_parachain.Common.Primitives.{
  TradingPair, TechAccountId, tech_account_eq, to_fee_account, xyk_pool, of_lst_id, of_account_id,
  to_tech_unit_from_dex_and_trading_pair,
}
use sora2_parachain.Common.SwapAmounts.{SwapAmount, with_desired_input, with_desired_output}
use sora2_parachain.DexManager.{DexInfos, get_dex_info}
use sora2_parachain.Technical
use sora2_parachain.TradingPairs
use sora2_parachain.Common.Effects.{Effect, reads, on_part}
use sora2_parachain.Common.Effects
use sora2_parachain.Assets
use sora2_parachain.Assets.Defs.{AssetRecord, arity3, generic_u128, extra_arg}
use sora2_parachain.Assets.Operations.{register_asset_id_from_tuple}
use sora2_parachain.Technical.{tech_account_id_to_account_id, ensure_tech_account_registered}
use sora2_parachain.Xyk.Bounds.{Bounds, desired}
use sora2_parachain.Xyk.Math.{failed, Outcome}

-- `Resource`
pub record Resource : Type 0 where
  pub asset : ℕ
  pub amount : Bounds

pub record PairSwapAction : Type 0 where
  pub client_account : Option ℕ
  pub receiver_account : Option ℕ
  pub pool_account : TechAccountId
  pub source : Resource
  pub destination : Resource
  pub fee : Option ℕ
  pub fee_account : Option TechAccountId
  pub get_fee_from_destination : Option Bool

-- `ResourcePair`: its fields `0` and `1`.
pub record ResourcePair : Type 0 where
  pub first : Resource
  pub second : Resource

pub record DepositLiquidityAction : Type 0 where
  pub client_account : Option ℕ
  pub receiver_account : Option ℕ
  pub pool_account : TechAccountId
  pub source : ResourcePair
  pub destination : Resource
  pub min_liquidity : Option ℕ

pub record WithdrawLiquidityAction : Type 0 where
  pub client_account : Option ℕ
  pub receiver_account_a : Option ℕ
  pub receiver_account_b : Option ℕ
  pub pool_account : TechAccountId
  pub source : Resource
  pub destination : ResourcePair

-- `PoolIsInitialized`
pub data Event : Type 0 where
  pool_is_initialized : ℕ → Event

-- The storage of the pallet with that of `technical`, and what it uses of that of `trading-pair`
-- and `dex-manager`.
pub record State (S L : Type 0) : Type 0 where
  pub technical : Technical.State S L
  pub reserves : StorageMap (ℕ × ℕ) (ℕ × ℕ)
  pub properties : StorageMap (ℕ × ℕ) (ℕ × ℕ × ℕ)
  pub marker_tokens : List ℕ
  pub events : List Event
  pub enabled_sources : TradingPairs.Sources
  pub dex_infos : DexInfos
  pub pair_events : List (ℕ × TradingPair)

-- The environments of `technical` and `fixnum`, the base asset of the runtime, the order that
-- `sort_with_hash_key` gives two assets by their `blake2b` hashes, the conversions between asset ids
-- and technical ones, the hash of the words `Marking asset`, and the hash of an exchange's id.
pub record Env (S L : Type 0) : Type 0 where
  pub technical_env : Technical.Env S L
  pub fx : Fixnum
  pub base_asset : ℕ
  pub sorted_first : ℕ → ℕ → Bool
  pub to_tech_asset : ℕ → Option ℕ
  pub from_tech_asset : ℕ → ℕ
  pub marking_tag : ℕ
  pub hash_dex : ℕ → ℕ

abbrev pub min_liquidity : ℕ
min_liquidity = 1000

unfoldable pub get_fee_account : TechAccountId → Outcome TechAccountId
unfolding to_fee_account
get_fee_account tech = ok_or (to_fee_account tech) (failed XykError.unable_to_derive_fee_account)

unfoldable pub is_fee_account_valid_for : TechAccountId → TechAccountId → Outcome (Unit {0})
unfolding get_fee_account
is_fee_account_valid_for tech fee_acc = do
  recommended ← get_fee_account tech
  ensure (tech_account_eq fee_acc recommended) (failed XykError.fee_account_is_invalid)

unfoldable pub get_bounds_from_swap_amount : SwapAmount ℕ → Outcome (Bounds × Bounds)
get_bounds_from_swap_amount (with_desired_input amount_in min_out) =
    ok (desired amount_in, Bounds.min min_out)
get_bounds_from_swap_amount (with_desired_output amount_out max_in) =
    ok (Bounds.max max_in, desired amount_out)

module _ {S L : Type 0} (env : Env S L) where
  open env use {technical_env, base_asset, sorted_first, to_tech_asset, marking_tag}
  open technical_env use {assets_env}

  unfoldable pub decide_is_fee_from_destination : ℕ → ℕ → Outcome Bool
  decide_is_fee_from_destination asset_a asset_b =
      if nat_eq base_asset asset_a
      then ok false
      else if nat_eq base_asset asset_b
      then ok true
      else ok false

  unfoldable pub is_pool_account_valid_for : TechAccountId → State S L → Outcome (Unit {0})
  is_pool_account_valid_for tech s = ensure_tech_account_registered technical_env tech s.technical

  -- The marker asset of a pool: its id is generated from a record, which is stored.
  abbrev pub marking_record : ℕ → AssetRecord
  marking_record repr =
      arity3 (generic_u128 marking_tag) (extra_arg (of_lst_id xyk_pool))
        (extra_arg (of_account_id repr))

  abbrev pub in_assets : {A : Type 0} → Effect (Assets.Defs.State S L) A → Effect (State S L) A
  in_assets =
      on_part (λ s. s.technical.assets)
        (λ s a. record s { technical = record (s.technical) { assets = a } })

  unfoldable pub get_marking_asset_repr : TechAccountId → Effect (State S L) ℕ
  unfolding tech_account_id_to_account_id register_asset_id_from_tuple
  get_marking_asset_repr tech =
      Effects.◌>>=◌ (reads λ s. tech_account_id_to_account_id technical_env tech)
        λ repr. in_assets (register_asset_id_from_tuple assets_env (marking_record repr))

  unfoldable pub get_marking_asset : TechAccountId → Effect (State S L) ℕ
  unfolding get_marking_asset_repr
  get_marking_asset tech = Effects.◌>>=◌ (get_marking_asset_repr tech) λ asset.
      reads
        λ s. ok_or (to_tech_asset asset) (failed XykError.unable_to_convert_asset_to_tech_asset_id)

  unfoldable pub try_decode_asset : ℕ → Outcome ℕ
  try_decode_asset asset = ok_or (to_tech_asset asset) (failed XykError.asset_decoding_error)

  unfoldable pub tech_account_from_dex_and_asset_pair :
      ℕ → ℕ → ℕ → State S L → Outcome (TradingPair × TechAccountId)
  unfolding get_dex_info to_tech_unit_from_dex_and_trading_pair try_decode_asset
  tech_account_from_dex_and_asset_pair dex_id asset_a asset_b s = do
    info ← get_dex_info dex_id s.dex_infos
    ensure (not (nat_eq asset_a asset_b)) (failed XykError.assets_must_not_be_same)
    ba ← try_decode_asset info.base_asset_id
    ta ←
        (if nat_eq info.base_asset_id asset_a
          then try_decode_asset asset_b
          else if nat_eq info.base_asset_id asset_b
          then try_decode_asset asset_a
          else err (failed XykError.base_asset_is_not_matched))
    let pair : TradingPair = record { base_asset_id = ba; target_asset_id = ta }
    ok (pair, to_tech_unit_from_dex_and_trading_pair dex_id pair)

  -- Where neither asset is the base asset, the order of the hashes decides.
  unfoldable pub update_reserves : ℕ → ℕ → ℕ × ℕ → State S L → State S L
  update_reserves asset_a asset_b (balance_a, balance_b) s = record s {
    reserves =
        if nat_eq base_asset asset_a
        then insert s.reserves (asset_a, asset_b) (balance_a, balance_b)
        else if nat_eq base_asset asset_b
        then insert s.reserves (asset_b, asset_a) (balance_b, balance_a)
        else if sorted_first asset_a asset_b
        then insert s.reserves (asset_a, asset_b) (balance_a, balance_b)
        else insert s.reserves (asset_b, asset_a) (balance_b, balance_a);
  }
