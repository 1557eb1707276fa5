-- ===== src/LiquidityProxy/Tests.antt =====
-- Runs of pallets/liquidity-proxy/src/lib.rs, and its theorems at concrete trades.
use sora2_parachain.Prelude.{ℕ, ◌+◌, ◌*◌, ◌≤◌, ◌≡◌, ◌↔◌, refl, true, List, [], ◌∷◌, pos, arith}
use sora2_parachain.Common.Errors.{LiquidityProxyError}
use sora2_parachain.Common.Result.{ok}
use sora2_parachain.Common.Fixed.{one}
use sora2_parachain.Common.Fixed.Floored.{floored, floored-IsFloored}
use sora2_parachain.Common.Primitives.{
  LiquiditySourceType, xyk_pool, bonding_curve_pool, multicollateral_bonding_curve_pool, disabled,
  signed,
}
use sora2_parachain.Common.SwapAmounts.{
  SwapAmount, with_desired_input, with_desired_output, outcome,
}
use sora2_parachain.Common.SwapAmounts
use sora2_parachain.Common.Sources.{SourceId, SourceFilter}
use sora2_parachain.DexApi.{source_id}
use sora2_parachain.LiquidityProxy.Config.{AggregatedSwapOutcome, failed}
use sora2_parachain.LiquidityProxy.Paths.{is_path_available, list_enabled_sources_for_path}
use sora2_parachain.LiquidityProxy.Paths.Availability.{IsServed, is_path_available_iff}
use sora2_parachain.LiquidityProxy.FastSplit.{fast_split_primary_vs_secondary}
use sora2_parachain.LiquidityProxy.FastSplit.Fractions.{IsApportioned, fast_split-IsApportioned}
use sora2_parachain.LiquidityProxy.Shares.{IsPartial}
use sora2_parachain.LiquidityProxy.Quotes.{quote_single}
use sora2_parachain.LiquidityProxy.Quotes.Portions.{quote_single-IsPartial}
use sora2_parachain.LiquidityProxy.Exchanges.{exchange, swap}
use sora2_parachain.LiquidityProxy.Exchanges.Limits.{
  exchange-takes, exchange-IsTolerated, IsTolerated,
}
use sora2_parachain.LiquidityProxy.Exchanges.Agreement.{swap-atomic}
use sora2_parachain.LiquidityProxy.Fixtures.{
  proxy, start, both_markets, three_sources, trader, proxy-TakesWithin,
}

abbrev any_source : SourceFilter
any_source = record { dex_id = 0; selected = []; forbids_selected = true }

abbrev buying : SwapAmount ℕ
buying = SwapAmounts.SwapAmount.with_desired_input (1000 * one) 0

abbrev wanting : SwapAmount ℕ
wanting = SwapAmounts.SwapAmount.with_desired_output (100 * one) (200 * one)

abbrev primary_id : SourceId
primary_id = source_id 0 multicollateral_bonding_curve_pool

abbrev pool_id : SourceId
pool_id = source_id 0 xyk_pool

-- The secondary market is cheaper at first, and gets the part that moves its price to the primary's.
abbrev two_markets : AggregatedSwapOutcome
two_markets = record {
  distribution = (primary_id, pos 585786437626904953) ∷ (pool_id, pos 414213562373095047) ∷ [];
  amount = 1000 * one;
  fee = 6;
}

buying_quoted : quote_single proxy 11 10 buying any_source (start both_markets) ≡ ok two_markets
unfolding quote_single proxy
buying_quoted = refl

three_quoted :
    quote_single proxy 11 10 buying any_source (start three_sources)
    ≡ ok (record {
      distribution =
          (pool_id, pos one) ∷ (source_id 0 bonding_curve_pool, pos 0) ∷ (primary_id, pos 0) ∷ [];
      amount = 1000 * one;
      fee = 3;
    })
unfolding quote_single proxy
three_quoted = refl

wanting_exchanged :
    (exchange proxy trader 2 11 12 wanting any_source (start three_sources)).0
    ≡ ok (outcome (100 * one) 6)
unfolding exchange proxy
wanting_exchanged = refl

fast_split-IsApportioned_example : IsApportioned primary_id pool_id two_markets.distribution
unfolding fast_split_primary_vs_secondary proxy
fast_split-IsApportioned_example =
    fast_split-IsApportioned proxy floored-IsFloored primary_id pool_id 11 10 buying
      (start both_markets) {o = two_markets} refl

quote_single-IsPartial_example : IsPartial two_markets.distribution
unfolding proxy floored
quote_single-IsPartial_example =
    quote_single-IsPartial proxy floored-IsFloored 11 10 buying any_source (start both_markets)
      {o = two_markets} buying_quoted

exchange-takes_example :
    5000 * one
    ≤ (exchange proxy trader 2 11 12 wanting any_source (start three_sources)).1.balance 11
      + 200 * one
unfolding exchange proxy
exchange-takes_example =
    exchange-takes proxy floored-IsFloored trader (λ asset c. c.balance asset) proxy-TakesWithin 2
      11 12 wanting any_source (start three_sources)
      {s' = (exchange proxy trader 2 11 12 wanting any_source (start three_sources)).1}
      {o = outcome (100 * one) 6} refl

exchange-IsTolerated_example : IsTolerated proxy wanting (outcome (100 * one) 6)
unfolding exchange proxy
exchange-IsTolerated_example =
    exchange-IsTolerated proxy trader 2 11 12 wanting any_source (start three_sources)
      {s' = (exchange proxy trader 2 11 12 wanting any_source (start three_sources)).1}
      {o = outcome (100 * one) 6} (omega arith) (omega arith) refl

-- Both sources are paid before the outcome is found to be too small.
abbrev too_much : SwapAmount ℕ
too_much = SwapAmounts.SwapAmount.with_desired_input (100 * one) (101 * one)

swap-atomic_example :
    (swap proxy (signed trader) 0 11 12 too_much [] disabled (start both_markets)).1
    ≡ start both_markets
unfolding swap proxy
swap-atomic_example =
    swap-atomic proxy (signed trader) 0 11 12 too_much [] disabled (start both_markets)
      {e = failed LiquidityProxyError.slippage_not_tolerated}
      {s' = (swap proxy (signed trader) 0 11 12 too_much [] disabled (start both_markets)).1} refl

-- Both 11 and 13 have a source with the base asset.
is_path_available_iff_example :
    ((is_path_available proxy 0 11 13 (start []) ≡ ok true) ↔ IsServed proxy 0 (start []) 11 13)
    × (((ts : List LiquiditySourceType) × (list_enabled_sources_for_path proxy 0 11 13 (start [])
            ≡ ok ts))
        ↔ IsServed proxy 0 (start []) 11 13)
is_path_available_iff_example = is_path_available_iff proxy 0 (start []) 11 13

path_is_available : is_path_available proxy 0 11 13 (start []) ≡ ok true
unfolding is_path_available proxy
path_is_available = refl
