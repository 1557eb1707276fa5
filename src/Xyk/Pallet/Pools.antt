-- ===== src/Xyk/Pallet/Pools.antt =====
-- pallets/pool-xyk/src/lib.rs: the initialisation of pools. `EnsureDEXManager` is that of
-- `dex-manager`. A `BTreeSet` is a list without repetitions, whose order is not observed.
use sora2_parachain.Prelude.{
  ℕ, eq_ℕ, eq_pair, Bool, true, false, ◌&&◌, List, [], ◌∷◌, ◌++◌, nat_eq, if◌then◌else◌,
}
use sora2_parachain.Common.Errors.{XykError}
use sora2_parachain.Common.Result.{ok, err, is_ok}
use sora2_parachain.Common.Storage.{insert}
use sora2_parachain.Common.Effects.{
  Effect, ◌>>=◌, ◌>>◌, pure, reads, modify, on_part, with_transaction,
}
use sora2_parachain.Common.Primitives.{
  TradingPair, TechAccountId, Origin, public_mode, xyk_pool, to_fee_account,
}
use sora2_parachain.Permissions.Defs.{limited, mint_id, burn_id}
use sora2_parachain.Permissions.Operations.{grant_permission_with_scope}
use sora2_parachain.Assets.Operations.{in_permissions, ensure_asset_exists, register_asset_id}
use sora2_parachain.DexManager.{ensure_can_manage}
use sora2_parachain.TradingPairs
use sora2_parachain.TradingPairs.{enable_source_for_trading_pair, ensure_trading_pair_exists}
use sora2_parachain.Technical.{
  tech_account_id_to_account_id, ensure_tech_account_registered, register_tech_account_id,
}
use sora2_parachain.Xyk.Math.{failed, Outcome}
use sora2_parachain.Xyk.Defs.{
  State, Env, pool_is_initialized, in_assets, tech_account_from_dex_and_asset_pair,
  get_marking_asset,
}
use sora2_parachain.Xyk.PairSwap.Reserve.{in_technical}
use sora2_parachain.Xyk.Liquidity.Actions.{unwrap_or_panic}
use sora2_parachain.Common.FrameSystem.{ensure_signed}

-- `BTreeSet::insert`
unfoldable pub contains_token : List ℕ → ℕ → Bool
contains_token [] t = false
contains_token (u ∷ us) t = if nat_eq u t then true else contains_token us t

unfoldable pub insert_token : ℕ → List ℕ → List ℕ
unfolding contains_token
insert_token t us = if contains_token us t then us else t ∷ us

module _ {S L : Type 0} (env : Env S L) where
  open env use {technical_env, base_asset, sorted_first, from_tech_asset, hash_dex}
  open technical_env use {assets_env}
  open assets_env use {frame, money, hash}

  -- The storage of `trading-pair` within that of the pallet.
  abbrev pub pairs_part : State S L → TradingPairs.State S
  pairs_part s = record {
    enabled_sources = s.enabled_sources;
    dex_infos = s.dex_infos;
    permissions = s.technical.assets.permissions;
    events = s.pair_events;
  }

  abbrev pub in_pairs : {A : Type 0} → Effect (TradingPairs.State S) A → Effect (State S L) A
  in_pairs = on_part pairs_part λ s t. record s {
    technical = record (s.technical) {
      assets = record (s.technical.assets) { permissions = t.permissions };
    };
    enabled_sources = t.enabled_sources;
    dex_infos = t.dex_infos;
    pair_events = t.events;
  }

  abbrev pub sorted_pair : ℕ → ℕ → ℕ × ℕ
  sorted_pair asset_a asset_b =
      if nat_eq base_asset asset_a
      then (asset_a, asset_b)
      else if nat_eq base_asset asset_b
      then (asset_b, asset_a)
      else if sorted_first asset_a asset_b
      then (asset_a, asset_b)
      else (asset_b, asset_a)

  unfoldable pub initialize_pool_properties : ℕ → ℕ → ℕ → ℕ → ℕ → ℕ → Effect (State S L) (Unit {0})
  unfolding enable_source_for_trading_pair
  initialize_pool_properties dex_id asset_a asset_b reserves_account fees_account marker = do
    let (a, b) = sorted_pair asset_a asset_b
    in_pairs (enable_source_for_trading_pair dex_id a b xyk_pool)
    modify λ s. record s {
      properties = insert s.properties (a, b) (reserves_account, fees_account, marker);
    }

  -- Whether the parts of the pool other than its account are there.
  abbrev pub rest_is_initialized : ℕ → TradingPair → TechAccountId → ℕ → State S L → Bool
  rest_is_initialized dex_id pair fee_acc mark_asset s =
      is_ok (ensure_tech_account_registered technical_env fee_acc s.technical)
      && is_ok (ensure_asset_exists assets_env (from_tech_asset mark_asset) (s.technical.assets))
      && is_ok (
          ensure_trading_pair_exists dex_id (from_tech_asset pair.base_asset_id)
            (from_tech_asset pair.target_asset_id) (pairs_part s))

  abbrev pub require_new :
      ℕ → TradingPair → TechAccountId → TechAccountId → ℕ → State S L → Outcome (Unit {0})
  require_new dex_id pair tech fee_acc mark_asset s =
      if is_ok (ensure_tech_account_registered technical_env tech s.technical)
      then (if rest_is_initialized dex_id pair fee_acc mark_asset s
          then err (failed XykError.pool_is_already_initialized)
          else err (failed XykError.pool_initialization_is_invalid))
      else ok tt

  unfoldable pub initialize_pool_unchecked :
      ℕ → ℕ → ℕ → Effect (State S L) (TradingPair × TechAccountId × TechAccountId × ℕ)
  unfolding tech_account_from_dex_and_asset_pair get_marking_asset ensure_tech_account_registered
      ensure_asset_exists ensure_trading_pair_exists register_tech_account_id to_fee_account
  initialize_pool_unchecked dex_id asset_a asset_b = do
    (pair, tech) ← reads (tech_account_from_dex_and_asset_pair env dex_id asset_a asset_b)
    fee_acc ← unwrap_or_panic env (to_fee_account tech)
    mark_asset ← get_marking_asset env tech
    reads (require_new dex_id pair tech fee_acc mark_asset)
    in_technical env (register_tech_account_id technical_env tech)
    in_technical env (register_tech_account_id technical_env fee_acc)
    pure (pair, tech, fee_acc, mark_asset)

  abbrev pub sign_for : ℕ → ℕ → ℕ → ℕ → Effect (State S L) (Unit {0})
  sign_for source account id marker = in_assets env (
      in_permissions assets_env
        (grant_permission_with_scope frame source account id (limited (hash marker))))

  abbrev pub add_marker : ℕ → Effect (State S L) (Unit {0})
  add_marker marker = modify λ s. record s { marker_tokens = insert_token marker s.marker_tokens }

  -- `AssetSymbol(b"XYKPOOL")` and `AssetName(b"XYK LP Tokens")`.
  abbrev pub marker_symbol : List ℕ
  marker_symbol = b'X' ∷ b'Y' ∷ b'K' ∷ b'P' ∷ b'O' ∷ b'O' ∷ b'L' ∷ []

  abbrev pub marker_name : List ℕ
  marker_name =
      b'X' ∷ b'Y' ∷ b'K' ∷ b' ' ∷ b'L' ∷ b'P' ∷ b' ' ∷ b'T' ∷ b'o' ∷ b'k' ∷ b'e' ∷ b'n' ∷ b's' ∷ []

  -- The extrinsic.
  unfoldable pub initialize_pool : Origin → ℕ → ℕ → ℕ → Effect (State S L) (Unit {0})
  unfolding ensure_can_manage initialize_pool_unchecked register_asset_id
      grant_permission_with_scope initialize_pool_properties tech_account_id_to_account_id
      insert_token
  initialize_pool origin dex_id asset_a asset_b = with_transaction do
    source ← ensure_signed origin
    manager ← reads λ s.
        ensure_can_manage hash_dex dex_id origin public_mode s.dex_infos
          (s.technical.assets.permissions)
    (pair, tech, fee_acc, mark_asset) ← initialize_pool_unchecked dex_id asset_a asset_b
    let marker = from_tech_asset mark_asset
    in_assets env (register_asset_id assets_env source marker marker_symbol marker_name 18 0 true)
    repr ← reads λ s. tech_account_id_to_account_id technical_env tech
    fees_repr ← reads λ s. tech_account_id_to_account_id technical_env fee_acc
    sign_for source repr mint_id marker
    sign_for source repr burn_id marker
    initialize_pool_properties dex_id asset_a asset_b repr fees_repr marker
    add_marker marker
    modify λ s. record s { events = s.events ++ (pool_is_initialized repr ∷ []) }
