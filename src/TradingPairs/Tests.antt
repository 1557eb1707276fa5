-- ===== src/TradingPairs/Tests.antt =====
-- Runs of pallets/trading-pair/src/lib.rs and pallets/dex-manager/src/lib.rs, and their theorems at
-- concrete states.
use sora2_parachain.Prelude.{
  ◌++◌, ℕ, ◌≡◌, ◌≢◌, ◌⊎◌, refl, true, Option, none, [], ◌∷◌, eq_ℕ, eq_pair,
}
use sora2_parachain.Common.Errors.{DispatchError}
use sora2_parachain.Common.Result.{Result, ok, err}
use sora2_parachain.Common.Storage.{insert}
use sora2_parachain.Common.Primitives.{signed, public_mode, xyk_pool, eq_trading_pair}
use sora2_parachain.Permissions.Defs.{limited, eq_scope, permit, manage_dex_id}
use sora2_parachain.DexManager.{ensure_can_manage, get_dex_info}
use sora2_parachain.TradingPairs.{State, enabled, pair_of, register}
use sora2_parachain.TradingPairs.Laws.{register_lem}

abbrev alice : ℕ
alice = 1

abbrev identity : ℕ → ℕ
identity a = a

-- Exchange 0 is public and Alice manages it; it has the pair of the assets 10 and 11.
abbrev sample : State ℕ
sample = record {
  enabled_sources = ((0, pair_of 10 11), xyk_pool ∷ []) ∷ [];
  dex_infos = (0, record { base_asset_id = 10; is_public = true }) ∷ [];
  permissions = record {
    owners = [];
    modes = (manage_dex_id, permit) ∷ [];
    permissions = ((alice, limited 0), manage_dex_id ∷ []) ∷ [];
    system = 4;
    events = [];
  };
  events = [];
}

abbrev any_asset : ℕ → Result DispatchError (Unit {0})
any_asset a = ok tt

register_lem_example :
    let (r, t) = register identity any_asset 10 (signed alice) 0 10 12 sample in
    ((e : DispatchError) × (r ≡ err e)) × (t ≡ sample)
    ⊎ (r ≡ ok tt)
      × ((author : Option ℕ) × (ensure_can_manage identity 0
              (signed alice)
              public_mode
              sample.dex_infos
              sample.permissions
            ≡ ok author))
      × (any_asset 10 ≡ ok tt)
      × (any_asset 12 ≡ ok tt)
      × (◌≢◌ {A = ℕ} 10 12)
      × (◌≡◌ {A = ℕ} 10 10)
      × (enabled sample 0 10 12 ≡ none)
      × (t ≡ record sample {
        enabled_sources = insert sample.enabled_sources (0, pair_of 10 12) [];
        events = sample.events ++ ((0, pair_of 10 12) ∷ []);
      })
register_lem_example = register_lem identity any_asset 10 (signed alice) 0 10 12 sample

register_runs :
    (register identity any_asset 10 (signed alice) 0 10 12 sample).1.enabled_sources
    ≡ ((0, pair_of 10 11), xyk_pool ∷ []) ∷ ((0, pair_of 10 12), []) ∷ []
unfolding register ensure_can_manage get_dex_info
register_runs = refl
