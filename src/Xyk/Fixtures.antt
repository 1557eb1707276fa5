-- ===== src/Xyk/Fixtures.antt =====
-- A pool of pallets/pool-xyk/src with its environment, for runs and for the theorems at concrete
-- states.
use sora2_parachain.Prelude.{ℕ, ◌*◌, ◌+◌, true, some, [], ◌∷◌, nat_eq, eq_ℕ, eq_pair, if◌then◌else◌}
use sora2_parachain.Common.FrameSystem.{counting}
use sora2_parachain.Common.Currency.{Sheet, sheet_currency}
use sora2_parachain.Common.Fixed.{one}
use sora2_parachain.Common.Fixed.Floored.{floored}
use sora2_parachain.Common.Primitives.{
  TradingPair, TechAccountId, pure_account, liquidity_keeper, fee_collector_for_pair,
  tech_account_eq,
}
use sora2_parachain.Permissions.Defs.{unlimited, forbid}
use sora2_parachain.Technical
use sora2_parachain.Xyk.Defs.{State, Env}

abbrev pub alice : ℕ
alice = 1

abbrev pub tokens : ℕ → ℕ
tokens n = n * one

abbrev pub pair : TradingPair
pair = record { base_asset_id = 10; target_asset_id = 11 }

abbrev pub pool : TechAccountId
pool = pure_account 0 (liquidity_keeper pair)

abbrev pub fee_pool : TechAccountId
fee_pool = pure_account 0 (fee_collector_for_pair pair)

abbrev pub technical_env : Technical.Env ℕ Sheet
technical_env = record {
  assets_env = record {
    frame = counting;
    money = record sheet_currency { total_issuance = λ a b. tokens 140 };
    hash = λ a. a;
    digest_id = λ account nonce. account + nonce;
    record_id = λ r. 77;
    default_account = 0;
  };
  encoded_to_account_id_32 = λ t. if tech_account_eq t pool then 500 else 501;
  decode = λ n. some n;
}

abbrev pub xyk_env : Env ℕ Sheet
xyk_env = record {
  technical_env = technical_env;
  fx = floored;
  base_asset = 10;
  sorted_first = λ a b. true;
  to_tech_asset = λ a. some a;
  from_tech_asset = λ a. a;
  marking_tag = 5;
  hash_dex = λ d. d;
}

-- The pool has 100 and 200 tokens; every other account has 50 of each.
abbrev pub balances : Sheet
balances asset who =
    if nat_eq who 500 then (if nat_eq asset 10 then tokens 100 else tokens 200) else tokens 50

abbrev pub technical_state : Technical.State ℕ Sheet
technical_state = record {
  assets = record {
    permissions = record {
      owners = [];
      modes = (1, forbid) ∷ [];
      permissions = [];
      system = 4;
      events = [];
    };
    asset_owners = (10, 7) ∷ (11, 7) ∷ (77, 7) ∷ [];
    asset_infos = (77, record { symbol = []; name = []; precision = 18; is_mintable = true }) ∷ [];
    asset_records = [];
    currency = balances;
    events = [];
  };
  tech_accounts = (500, pool) ∷ (501, fee_pool) ∷ [];
}

abbrev pub sample : State ℕ Sheet
sample = record {
  technical = technical_state;
  reserves = ((10, 11), (tokens 100, tokens 200)) ∷ [];
  properties = [];
  marker_tokens = 77 ∷ [];
  events = [];
  enabled_sources = [];
  dex_infos = (0, record { base_asset_id = 10; is_public = true }) ∷ [];
  pair_events = [];
}

abbrev pub frozen : State ℕ Sheet
frozen = record sample {
  technical = record technical_state {
    assets = record (technical_state.assets) {
      permissions = record (technical_state.assets.permissions) {
        permissions = ((500, unlimited), 1 ∷ []) ∷ [];
      };
    };
  };
}

abbrev pub ignored : ℕ → State ℕ Sheet → State ℕ Sheet
ignored who s = s
