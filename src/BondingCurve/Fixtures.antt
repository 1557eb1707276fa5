-- ===== src/BondingCurve/Fixtures.antt =====
-- pallets/bonding-curve-pool/src/lib.rs: a pool with its environment, for runs and for the theorems at
-- concrete states.
use sora2_parachain.Prelude.{true, ℕ, ◌+◌, [], ◌∷◌, nat_eq, if◌then◌else◌}
use sora2_parachain.Common.Currency.{Sheet}
use sora2_parachain.Common.Fixed.Floored.{floored}
use sora2_parachain.Common.Sources.{no_source}
use sora2_parachain.Permissions.Defs.{unlimited, permit, forbid, transfer_id, mint_id, burn_id}
use sora2_parachain.Xyk.Fixtures.{alice, tokens, pool, technical_env, technical_state}
use sora2_parachain.BondingCurve.Defs.{State, Env, default_curve, default_accounts}

-- The account of the reserves; 10 is XOR, 11 is USDT and 12 is VAL.
abbrev pub reserves : ℕ
reserves = 500

-- What was issued is what alice and the reserves have.
unfoldable pub bonding_env : Env ℕ Sheet ℕ
unfolding floored
bonding_env = record {
  technical_env = record technical_env {
    assets_env = record (technical_env.assets_env) {
      money = record (technical_env.assets_env.money) {
        total_issuance = λ a b. b a alice + b a reserves;
      };
    };
  };
  dex_api = no_source;
  fx = floored;
  base_asset = 10;
  usdt = 11;
  val = 12;
}

abbrev pub holding : ℕ → ℕ → Sheet
holding xor usdt asset who =
    if nat_eq asset 10
    then (if nat_eq who alice then tokens xor else 0)
    else (if nat_eq who reserves then tokens usdt else tokens 5000)

-- Alice has `xor` of the main asset and 5000 USDT, and the reserves have `usdt`.
abbrev pub bonded : ℕ → ℕ → State ℕ Sheet ℕ
bonded xor usdt = record {
  technical = record technical_state {
    assets = record (technical_state.assets) {
      permissions = record (technical_state.assets.permissions) {
        modes = (transfer_id, forbid) ∷ (mint_id, permit) ∷ (burn_id, permit) ∷ [];
        permissions = ((reserves, unlimited), mint_id ∷ burn_id ∷ []) ∷ [];
      };
      asset_infos =
          (10, record { symbol = []; name = []; precision = 18; is_mintable = true }) ∷ [];
      currency = holding xor usdt;
    };
  };
  reserves_acc = pool;
  curve = default_curve;
  distribution_accounts = default_accounts 0;
  rest = 0;
}
