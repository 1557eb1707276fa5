-- ===== src/Common/Sources.antt =====
-- common/src/traits.rs: the interfaces between sources of liquidity and those who trade with them.
-- A quote reads the storage and leaves it as it is. An exchange changes it.
use sora2_parachain.Prelude.{ℕ, Bool, false, List, ℤ, pos}
use sora2_parachain.Common.Errors.{DispatchError, cannot_lookup}
use sora2_parachain.Common.Result.{Result, ok, err}
use sora2_parachain.Common.Effects.{Effect, raise}
use sora2_parachain.Common.Primitives.{LiquiditySourceId, LiquiditySourceType}
use sora2_parachain.Common.SwapAmounts.{SwapAmount, SwapOutcome}
use sora2_parachain.Common.Utils.{LiquiditySourceFilter}

-- `Target` names the target: an exchange, or a source of an exchange.
pub record LiquiditySource (Target S : Type 0) : Type 0 where
  pub can_exchange : Target → ℕ → ℕ → S → Bool
  pub quote : Target → ℕ → ℕ → SwapAmount ℕ → S → Result DispatchError (SwapOutcome ℕ)
  pub exchange : ℕ → ℕ → Target → ℕ → ℕ → SwapAmount ℕ → Effect S (SwapOutcome ℕ)

-- `impl LiquiditySource for ()`
abbrev pub no_source : {Target S : Type 0} → LiquiditySource Target S
no_source = record {
  can_exchange = λ id input output s. false;
  quote = λ id input output amount s. err cannot_lookup;
  exchange = λ sender receiver id input output amount. raise cannot_lookup;
}

abbrev pub SourceId : Type 0
SourceId = LiquiditySourceId LiquiditySourceType

abbrev pub SourceFilter : Type 0
SourceFilter = LiquiditySourceFilter LiquiditySourceType

pub record LiquidityRegistry (S : Type 0) : Type 0 where
  pub source : LiquiditySource SourceId S
  pub list_liquidity_sources : ℕ → ℕ → SourceFilter → S → Result DispatchError (List SourceId)

pub record GetMarketInfo (S : Type 0) : Type 0 where
  pub buy_price : ℕ → ℕ → S → Result DispatchError ℤ
  pub sell_price : ℕ → ℕ → S → Result DispatchError ℤ
  pub collateral_reserves : ℕ → S → Result DispatchError ℕ

-- `impl GetMarketInfo for ()`
abbrev pub no_market : {S : Type 0} → GetMarketInfo S
no_market = record {
  buy_price = λ base collateral s. ok (pos 0);
  sell_price = λ base collateral s. ok (pos 0);
  collateral_reserves = λ asset s. ok 0;
}

pub record GetPoolReserves (S : Type 0) : Type 0 where
  pub reserves : ℕ → ℕ → S → ℕ × ℕ

-- `impl GetPoolReserves for ()`
abbrev pub no_reserves : {S : Type 0} → GetPoolReserves S
no_reserves = record { reserves = λ base other s. (0, 0) }
