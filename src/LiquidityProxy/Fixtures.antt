-- ===== src/LiquidityProxy/Fixtures.antt =====
-- Two sources behind the gateway `dex-api`, and markets, for the runs of pallets/liquidity-proxy and
-- pallets/dex-api. A source trades one to one, and books what it takes from the trader.
use sora2_parachain.Prelude.{
  ℕ, ◌+◌, ◌*◌, ◌-◌, ◌≤◌, ◌≢◌, ◌≡◌, ◌⊎◌, ◌∙◌, refl, sym, subst, ap, true, List, [], ◌∷◌, ◌++◌, pos,
  nat_eq, nat_eq_iff, arith, if◌then◌else◌, Bool-cases, inl, inr,
}
use sora2_parachain.Common.Result.{ok}
use sora2_parachain.Common.Fixed.{one}
use sora2_parachain.Common.Fixed.Floored.{floored}
use sora2_parachain.Common.Primitives.{
  LiquiditySourceType, xyk_pool, multicollateral_bonding_curve_pool, bonding_curve_pool, mock_pool,
  mock_pool2, mock_pool3, mock_pool4,
}
use sora2_parachain.Common.SwapAmounts.{SwapAmount, amount, SwapOutcome, outcome}
use sora2_parachain.Common.Sources.{LiquiditySource, no_source}
use sora2_parachain.DexManager.{DexInfos}
use sora2_parachain.TradingPairs
use sora2_parachain.DexApi
use sora2_parachain.DexApi.{DirectExchange}
use sora2_parachain.LiquidityProxy.Config.{Env, Exchange}
use sora2_parachain.LiquidityProxy.Exchanges.Takes.{limit_in, TakesWithin}

-- What the trader, account 1, has of each asset.
pub record Chain : Type 0 where
  pub balance : ℕ → ℕ
  pub types : List LiquiditySourceType
  pub infos : DexInfos
  pub direct : List DirectExchange
  pub events : List Exchange

abbrev pub trader : ℕ
trader = 1

abbrev pub booked : ℕ → ℕ → ℕ → Chain → Chain
booked sender input taken c = record c {
  balance = λ asset.
      if nat_eq sender trader
      then (if nat_eq asset input then c.balance asset - taken else c.balance asset)
      else c.balance asset;
}

unfoldable pub one_to_one : {Target : Type 0} → LiquiditySource Target Chain
unfolding amount
one_to_one = record {
  can_exchange = λ id input output c. true;
  quote = λ id input output asked c. ok (outcome (amount asked) 3);
  exchange = λ sender receiver id input output asked c.
      (ok (outcome (amount asked) 3), booked sender input (limit_in asked) c);
}

unfoldable pub gateway : DexApi.Env Chain
unfolding one_to_one
gateway = record {
  xyk = one_to_one;
  bonding_curve = one_to_one;
  multicollateral = one_to_one;
  mock = no_source;
  mock2 = no_source;
  mock3 = no_source;
  mock4 = no_source;
  enabled_source_types = λ c. c.types;
  put_source_types = λ types c. record c { types = types };
  dex_infos = λ c. c.infos;
  deposit_event = λ e c. record c { direct = c.direct ++ (e ∷ []) };
}

abbrev pairs : TradingPairs.State ℕ
pairs = record {
  enabled_sources =
      ((0, TradingPairs.pair_of 10 11), xyk_pool ∷ [])
      ∷ ((0, TradingPairs.pair_of 10 12), [])
      ∷ ((0, TradingPairs.pair_of 10 13), xyk_pool ∷ [])
      ∷ [];
  dex_infos = (0, record { base_asset_id = 10; is_public = true }) ∷ [];
  permissions = record { owners = []; modes = []; permissions = []; system = 0; events = [] };
  events = [];
}

-- The base asset is 10. A unit of it costs two of the others on the primary market, and one on the
-- secondary.
unfoldable pub proxy : Env Chain ℕ
unfolding DexApi.registry gateway floored
proxy = record {
  registry = DexApi.registry gateway;
  primary_market = record {
    buy_price = λ base collateral c. ok (pos (2 * one));
    sell_price = λ base collateral c. ok (pos (2 * one));
    collateral_reserves = λ asset c. ok (50 * one);
  };
  secondary_market = record { reserves = λ base other c. (1000 * one, 1000 * one) };
  fx = floored;
  base_asset = 10;
  num_samples = 2;
  technical_account = 99;
  trading_pairs = λ c. pairs;
  deposit_event = λ e c. record c { events = c.events ++ (e ∷ []) };
}

-- The trader has 5000 of every asset.
abbrev pub start : List LiquiditySourceType → Chain
start types = record {
  balance = λ asset. 5000 * one;
  types = types;
  infos = (0, record { base_asset_id = 10; is_public = true }) ∷ [];
  direct = [];
  events = [];
}

abbrev pub both_markets : List LiquiditySourceType
both_markets = xyk_pool ∷ multicollateral_bonding_curve_pool ∷ []

abbrev pub three_sources : List LiquiditySourceType
three_sources = xyk_pool ∷ bonding_curve_pool ∷ multicollateral_bonding_curve_pool ∷ []

booked-takes :
    (input taken : ℕ) (c : Chain)
    → c.balance input ≤ (booked trader input taken c).balance input + taken
booked-takes input taken c = ground (arith, nat_eq_iff input input)

booked-spares :
    (sender input asset taken : ℕ) (c : Chain)
    → asset ≢ input
    → c.balance asset ≤ (booked sender input taken c).balance asset
booked-spares sender input asset taken c h = elim (Bool-cases (nat_eq sender trader)) [
  | inl e ↦ ground (arith, nat_eq_iff asset input)
  | inr e ↦ ground arith
]

-- The source behind the gateway.
abbrev Answers : LiquiditySource ℕ Chain → Type 0
Answers source = (source ≡ one_to_one) ⊎ (source ≡ no_source)

dispatch-Answers : (t : LiquiditySourceType) → Answers (DexApi.dispatch gateway t)
unfolding DexApi.dispatch gateway
dispatch-Answers xyk_pool = inl refl
dispatch-Answers bonding_curve_pool = inl refl
dispatch-Answers multicollateral_bonding_curve_pool = inl refl
dispatch-Answers mock_pool = inr refl
dispatch-Answers mock_pool2 = inr refl
dispatch-Answers mock_pool3 = inr refl
dispatch-Answers mock_pool4 = inr refl

exchanged :
    (source : LiquiditySource ℕ Chain) (sender receiver dex input output : ℕ) (asked : SwapAmount ℕ)
    (c : Chain) {o : SwapOutcome ℕ} {c' : Chain}
    → Answers source
    → source.exchange sender receiver dex input output asked c ≡ (ok o, c')
    → booked sender input (limit_in asked) c ≡ c'
unfolding one_to_one
exchanged source sender receiver dex input output asked c (inl e) h =
    ap (λ r. r.1) (sym (ap (λ s. s.exchange sender receiver dex input output asked c) e) ∙ h)
exchanged source sender receiver dex input output asked c (inr e) h =
    let refused = sym (ap (λ s. s.exchange sender receiver dex input output asked c) e) ∙ h in
    absurd (ground arith)

pub proxy-TakesWithin : TakesWithin proxy.registry.source trader (λ asset c. c.balance asset)
unfolding proxy DexApi.registry DexApi.exchange
proxy-TakesWithin = record {
  takes = λ receiver id input output asked c h.
      let e =
        exchanged (DexApi.dispatch gateway id.liquidity_source_index) trader receiver id.dex_id
          input output asked c (dispatch-Answers id.liquidity_source_index) h in
      subst (λ t. c.balance input ≤ t.balance input + limit_in asked) e
        (booked-takes input (limit_in asked) c);
  spares = λ sender receiver id input output asset asked c differ h.
      let e =
        exchanged (DexApi.dispatch gateway id.liquidity_source_index) sender receiver id.dex_id
          input output asked c (dispatch-Answers id.liquidity_source_index) h in
      subst (λ t. c.balance asset ≤ t.balance asset) e
        (booked-spares sender input asset (limit_in asked) c differ);
}
