-- ===== src/DexApi/Tests.antt =====
-- pallets/dex-api/src/lib.rs with sources that are fixed.
use sora2_parachain.Prelude.{ℕ, ◌≡◌, ◌↔◌, refl, true, none, List, [], ◌∷◌, eq_ℕ}
use sora2_parachain.Common.Errors.{cannot_lookup}
use sora2_parachain.Common.Result.{ok, err}
use sora2_parachain.Common.Primitives.{
  xyk_pool, mock_pool, mock_pool2, disabled, forbid_selected, signed, eq_source,
}
use sora2_parachain.Common.SwapAmounts.{desired_output, outcome}
use sora2_parachain.Common.Effects.{pure}
use sora2_parachain.Common.Sources.{LiquiditySource, no_source, SourceId}
use sora2_parachain.Common.Utils.{with_mode, Occurs, IsAllowed}
use sora2_parachain.DexApi.{
  Env, DirectExchange, source_id, list_liquidity_sources, can_exchange, swap,
}
use sora2_parachain.DexApi.Listing.{list_liquidity_sources_iff}

abbrev Events : Type 0
Events = List DirectExchange

abbrev fixed_price : LiquiditySource ℕ Events
fixed_price = record {
  can_exchange = λ dex input output s. true;
  quote = λ dex input output amount s. ok (outcome 7 1);
  exchange = λ sender receiver dex input output amount. pure (outcome 7 1);
}

abbrev sample : Env Events
sample = record {
  xyk = fixed_price;
  bonding_curve = no_source;
  multicollateral = no_source;
  mock = fixed_price;
  mock2 = no_source;
  mock3 = no_source;
  mock4 = no_source;
  enabled_source_types = λ s. xyk_pool ∷ mock_pool ∷ mock_pool2 ∷ [];
  put_source_types = λ types s. s;
  dex_infos = λ s. (0, record { base_asset_id = 10; is_public = true }) ∷ [];
  deposit_event = λ e s. e ∷ s;
}

listed :
    list_liquidity_sources sample 10 11 (with_mode 0 disabled []) []
    ≡ ok (source_id 0 xyk_pool ∷ source_id 0 mock_pool ∷ [])
unfolding list_liquidity_sources with_mode
listed = refl

swapped : swap sample (signed 1) 0 mock_pool 10 11 5 9 desired_output none [] ≡ (
  ok tt,
  record {
    sender = 1;
    receiver = 1;
    dex_id = 0;
    source_type = mock_pool;
    input_asset_id = 10;
    output_asset_id = 11;
    input_amount = 7;
    output_amount = 5;
    fee = 1;
  }
      ∷ [],
)
unfolding swap
swapped = refl

missing_source :
    swap sample (signed 1) 0 mock_pool2 10 11 5 9 desired_output none [] ≡ (err cannot_lookup, [])
unfolding swap
missing_source = refl

list_liquidity_sources_iff_example :
    (ids : List SourceId) × (list_liquidity_sources sample 10 11
        (with_mode 0 forbid_selected (xyk_pool ∷ []))
        []
      ≡ ok ids)
    × ((id : SourceId)
        → Occurs id ids ↔ (
            (id.dex_id ≡ 0)
            × Occurs id.liquidity_source_index (xyk_pool ∷ mock_pool ∷ mock_pool2 ∷ [])
            × IsAllowed forbid_selected (xyk_pool ∷ []) id.liquidity_source_index
            × (can_exchange sample id 10 11 [] ≡ true)))
list_liquidity_sources_iff_example =
    list_liquidity_sources_iff sample 0 forbid_selected (xyk_pool ∷ []) 10 11 [] refl
