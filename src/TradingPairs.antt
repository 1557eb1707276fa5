-- ===== src/TradingPairs.antt =====
-- The pallet `trading-pair` (pallets/trading-pair/src/lib.rs): which sources of liquidity are
-- enabled for which pair on which exchange. A `BTreeSet` is a list without repetitions, whose order
-- is not observed.
pub mod Laws
mod Tests
use sora2_parachain.Prelude.{
  ℕ, eq_ℕ, eq_pair, Bool, true, false, not, ◌&&◌, Option, none, some, List, [], ◌∷◌, ◌++◌, nat_eq,
  if◌then◌else◌,
}
use sora2_parachain.Common.Errors.{DispatchError, TradingPairError}
use sora2_parachain.Common.Result.{Result, ok, err, ok_or, ensure}
use sora2_parachain.Common.Result
use sora2_parachain.Common.Storage.{StorageMap, get, insert, is_some, unwrap_or}
use sora2_parachain.Common.Effects.{Effect, ◌>>=◌, ◌>>◌, pure, reads, gets, modify, require}
use sora2_parachain.Common.Primitives.{
  TradingPair, eq_trading_pair, LiquiditySourceType, source_beq, ManagementMode, public_mode,
  Origin,
}
use sora2_parachain.DexManager.{DexInfos, ensure_dex_exists, ensure_can_manage}
use sora2_parachain.Permissions

abbrev pub failed : TradingPairError → DispatchError
failed = DispatchError.trading_pair

abbrev pub Sources : Type 0
Sources = StorageMap (ℕ × TradingPair) (List LiquiditySourceType)

-- The storage of the pallet with what it reads: the exchanges and the permissions.
pub record State (S : Type 0) : Type 0 where
  pub enabled_sources : Sources
  pub dex_infos : DexInfos
  pub permissions : Permissions.Defs.State S
  pub events : List (ℕ × TradingPair)

unfoldable pub contains_source : List LiquiditySourceType → LiquiditySourceType → Bool
contains_source [] t = false
contains_source (u ∷ us) t = if source_beq u t then true else contains_source us t

-- `BTreeSet::insert`
unfoldable pub insert_source :
    LiquiditySourceType → List LiquiditySourceType → List LiquiditySourceType
unfolding contains_source
insert_source t us = if contains_source us t then us else t ∷ us

-- `EnabledSources::<T>::iter_prefix(dex_id)`
unfoldable pub pairs_of : ℕ → Sources → List TradingPair
pairs_of dex_id [] = []
pairs_of dex_id (((d, p), us) ∷ m) =
    let rest = pairs_of dex_id m in if nat_eq d dex_id then p ∷ rest else rest

-- `GenesisConfig::build`
unfoldable pub genesis_build : List (ℕ × TradingPair) → Sources → Sources
genesis_build [] m = m
genesis_build (key ∷ r) m = genesis_build r (insert m key [])

abbrev pub pair_of : ℕ → ℕ → TradingPair
pair_of base target = record { base_asset_id = base; target_asset_id = target }

-- `hash` is that of an exchange's id, `asset_exists` and `base_asset` are the calls
-- `ensure_asset_exists` and `GetBaseAssetId::get` of the pallet `assets` and of the runtime.
module _ {S : Type 0} where
  abbrev pub enabled : State S → ℕ → ℕ → ℕ → Option (List LiquiditySourceType)
  enabled s dex_id base target = get s.enabled_sources (dex_id, pair_of base target)

  unfoldable pub list_trading_pairs : ℕ → State S → Result DispatchError (List TradingPair)
  list_trading_pairs dex_id s =
      Result.◌>>◌ (ensure_dex_exists dex_id s.dex_infos) (ok (pairs_of dex_id s.enabled_sources))

  unfoldable pub is_trading_pair_enabled : ℕ → ℕ → ℕ → State S → Result DispatchError Bool
  is_trading_pair_enabled dex_id base target s =
      Result.◌>>◌ (ensure_dex_exists dex_id s.dex_infos)
        (ok (is_some (enabled s dex_id base target)))

  unfoldable pub ensure_trading_pair_exists : ℕ → ℕ → ℕ → State S → Result DispatchError (Unit {0})
  unfolding is_trading_pair_enabled
  ensure_trading_pair_exists dex_id base target s =
      Result.◌>>=◌ (is_trading_pair_enabled dex_id base target s)
        (λ yes_enabled. ensure yes_enabled (failed TradingPairError.trading_pair_doesnt_exist))

  unfoldable pub list_enabled_sources_for_trading_pair :
      ℕ → ℕ → ℕ → State S → Result DispatchError (List LiquiditySourceType)
  list_enabled_sources_for_trading_pair dex_id base target s =
      Result.◌>>◌ (ensure_dex_exists dex_id s.dex_infos)
        (ok_or (enabled s dex_id base target) (failed TradingPairError.trading_pair_doesnt_exist))

  unfoldable pub is_source_enabled_for_trading_pair :
      ℕ → ℕ → ℕ → LiquiditySourceType → State S → Result DispatchError Bool
  unfolding list_enabled_sources_for_trading_pair
  is_source_enabled_for_trading_pair dex_id base target source s =
      Result.◌>>=◌ (list_enabled_sources_for_trading_pair dex_id base target s)
        (λ us. ok (contains_source us source))

  abbrev pub store : ℕ → ℕ → ℕ → List LiquiditySourceType → State S → State S
  store dex_id base target us s = record s {
    enabled_sources = insert s.enabled_sources (dex_id, pair_of base target) us;
  }

  unfoldable pub enable_source_for_trading_pair :
      ℕ → ℕ → ℕ → LiquiditySourceType → Effect (State S) (Unit {0})
  unfolding ensure_trading_pair_exists
  enable_source_for_trading_pair dex_id base target source = do
    reads (ensure_trading_pair_exists dex_id base target)
    modify λ s.
        store dex_id base target
          (insert_source source (unwrap_or (enabled s dex_id base target) [])) s

  module _ (hash : ℕ → ℕ) (ensure_asset_exists : ℕ → Result DispatchError (Unit {0}))
      (base_asset : ℕ) where
    unfoldable pub register : Origin → ℕ → ℕ → ℕ → Effect (State S) (Unit {0})
    register origin dex_id base target = do
      author ← reads λ s. ensure_can_manage hash dex_id origin public_mode s.dex_infos s.permissions
      reads λ s. ensure_asset_exists base
      reads λ s. ensure_asset_exists target
      require (not (nat_eq base target)) (failed TradingPairError.identical_asset_ids)
      require (nat_eq base base_asset) (failed TradingPairError.forbidden_base_asset_id)
      known ← gets λ s. is_some (enabled s dex_id base target)
      require (not known) (failed TradingPairError.trading_pair_exists)
      modify (store dex_id base target [])
      modify λ s. record s { events = s.events ++ ((dex_id, pair_of base target) ∷ []) }
