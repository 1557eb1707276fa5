-- ===== src/LiquidityProxy/Paths.antt =====
-- pallets/liquidity-proxy/src/lib.rs: the trivial path of a trade, and the sources along it.
pub mod Availability
use sora2_parachain.Prelude.{
  ℕ, Bool, true, false, not, ◌&&◌, ◌||◌, List, [], ◌∷◌, ◌++◌, nat_eq, if◌then◌else◌,
}
use sora2_parachain.Common.Errors.{LiquidityProxyError}
use sora2_parachain.Common.Result.{ok, err, ◌>>=◌}
use sora2_parachain.Common.Primitives.{TradingPair, LiquiditySourceType}
use sora2_parachain.TradingPairs.{list_enabled_sources_for_trading_pair, insert_source, pair_of}
use sora2_parachain.LiquidityProxy.Config.{Env, Fallible, failed}

-- `direct from to`, and `twofold from intermediate to`.
pub data ExchangePath : Type 0 where
  direct : ℕ → ℕ → ExchangePath
  twofold : ℕ → ℕ → ℕ → ExchangePath

unfoldable pub as_vec : ExchangePath → List (ℕ × ℕ)
as_vec (direct from to) = (from, to) ∷ []
as_vec (twofold from via to) = (from, via) ∷ (via, to) ∷ []

abbrev pub is_empty : {A : Type 0} → List A → Bool
is_empty [] = true
is_empty (x ∷ xs) = false

-- `BTreeSet::union`
unfoldable pub union :
    List LiquiditySourceType → List LiquiditySourceType → List LiquiditySourceType
unfolding insert_source
union [] ts = ts
union (t ∷ us) ts = insert_source t (union us ts)

module _ {S P : Type 0} (env : Env S P) where
  unfoldable pub construct_trivial_path : ℕ → ℕ → ExchangePath
  construct_trivial_path input output =
      if nat_eq input env.base_asset || nat_eq output env.base_asset
      then direct input output
      else twofold input env.base_asset output

  unfoldable pub weak_sort_pair : ℕ → ℕ → TradingPair
  weak_sort_pair input output =
      if nat_eq input env.base_asset then pair_of input output else pair_of output input

  -- The call of the pallet `trading-pair`.
  abbrev pub enabled_sources : ℕ → ℕ → ℕ → S → Fallible (List LiquiditySourceType)
  enabled_sources dex_id base target s =
      list_enabled_sources_for_trading_pair dex_id base target (env.trading_pairs s)

  -- The second listing is made only if the first is not empty.
  abbrev pub is_available_along : ℕ → ExchangePath → S → Fallible Bool
  is_available_along dex_id (direct from to) s =
      let pair = weak_sort_pair from to in
      enabled_sources dex_id pair.base_asset_id pair.target_asset_id s >>= λ sources.
      ok (not (is_empty sources))
  is_available_along dex_id (twofold from via to) s = do
    first ← enabled_sources dex_id via from s
    (if is_empty first
        then ok false
        else (enabled_sources dex_id via to s >>= λ second. ok (not (is_empty second))))

  unfoldable pub is_path_available : ℕ → ℕ → ℕ → S → Fallible Bool
  unfolding construct_trivial_path weak_sort_pair list_enabled_sources_for_trading_pair
  is_path_available dex_id input output =
      is_available_along dex_id (construct_trivial_path input output)

  abbrev pub list_along : ℕ → ExchangePath → S → Fallible (List LiquiditySourceType)
  list_along dex_id (direct from to) s =
      let pair = weak_sort_pair from to in
      enabled_sources dex_id pair.base_asset_id pair.target_asset_id s >>= λ sources.
      if is_empty sources
      then err (failed LiquidityProxyError.unavailable_exchange_path)
      else ok sources
  list_along dex_id (twofold from via to) s = do
    first ← enabled_sources dex_id via from s
    second ← enabled_sources dex_id via to s
    (if not (is_empty first) && not (is_empty second)
        then ok (union first second)
        else err (failed LiquidityProxyError.unavailable_exchange_path))

  unfoldable pub list_enabled_sources_for_path : ℕ → ℕ → ℕ → S → Fallible (List LiquiditySourceType)
  unfolding construct_trivial_path weak_sort_pair list_enabled_sources_for_trading_pair union
  list_enabled_sources_for_path dex_id input output =
      list_along dex_id (construct_trivial_path input output)
