-- ===== src/LiquidityProxy/Exchanges/Limits.antt =====
-- pallets/liquidity-proxy/src/lib.rs: the limits of an exchange along its path, and its failures.
use sora2_parachain.Prelude.{
  ℕ, ◌+◌, ◌≤◌, ◌≡◌, ◌≢◌, subst, ap, false, not, ◌||◌, arith, nat_eq, nat_eq_iff, leb, leb→le,
  Bool-cases, inl, inr,
}
use sora2_parachain.Common.Errors.{LiquidityProxyError}
use sora2_parachain.Common.Result.{ok}
use sora2_parachain.Common.Effects.{bind-eq-ok, reads-eq-ok, require-eq-ok, with_transaction-eq-ok}
use sora2_parachain.Common.Fixed.{IsFloored}
use sora2_parachain.Common.SwapAmounts.{
  SwapAmount, with_desired_input, with_desired_output, SwapOutcome,
}
use sora2_parachain.Common.Sources.{SourceFilter}
use sora2_parachain.LiquidityProxy.Config.{Env, failed, max_balance}
use sora2_parachain.LiquidityProxy.Paths.{construct_trivial_path}
use sora2_parachain.LiquidityProxy.Quotes.{quote_single, checked_fees}
use sora2_parachain.LiquidityProxy.Exchanges.{
  exchange_chain, exchange_twofold, exchange_along, exchange,
}
use sora2_parachain.LiquidityProxy.Exchanges.Takes.{
  limit_in, TakesWithin, exchange_single-takes, exchange_chain-takes,
}

module _ {S P : Type 0} (env : Env S P) where
  open env use {registry, base_asset}
  open registry use {source}

  -- An exchange that succeeds is one along its path.
  exchange-along :
      (sender receiver input output : ℕ) (asked : SwapAmount ℕ) (filter : SourceFilter) (s s' : S)
      (o : SwapOutcome ℕ)
      → exchange env sender receiver input output asked filter s ≡ (ok o, s')
      → exchange_along env sender receiver (construct_trivial_path env input output) asked filter s
        ≡ (ok o, s')
  unfolding exchange
  exchange-along sender receiver input output asked filter s s' o h =
      let (differ, h1) =
        require-eq-ok (not (nat_eq input output))
          (failed LiquidityProxyError.unavailable_exchange_path) _ s h in
      with_transaction-eq-ok
        (exchange_along env sender receiver (construct_trivial_path env input output) asked filter)
        s h1

  module _ (laws : IsFloored env.fx) (who : ℕ) (balance : ℕ → S → ℕ)
      (promise : TakesWithin source who balance) where
    exchange_twofold-takes :
        (receiver from via to : ℕ) (asked : SwapAmount ℕ) (filter : SourceFilter) (s s' : S)
        (o : SwapOutcome ℕ)
        → from ≢ via
        → exchange_twofold env who receiver from via to asked filter s ≡ (ok o, s')
        → balance from s ≤ balance from s' + limit_in asked
    exchange_twofold-takes receiver from via to (with_desired_input a m) filter s s' o differ h =
        let (pair, s1, e1, h1) =
          bind-eq-ok (exchange_chain env who receiver from via to a filter) _ s h in
        let taken =
          exchange_chain-takes env laws who balance promise receiver from via to a filter s s1 pair
            differ e1 in
        let (enough, h2) =
          require-eq-ok (leb m pair.1.amount) (failed LiquidityProxyError.slippage_not_tolerated) _
            s1 h1 in
        let (fee, e3, h3) = reads-eq-ok (λ s. checked_fees pair.0.fee pair.1.fee) _ s1 h2 in
        let same : s1 ≡ s' = ap (λ r. r.1) h3 in
        subst (λ t. balance from s ≤ balance from t + a) same taken
    exchange_twofold-takes receiver from via to (with_desired_output a m) filter s s' o differ h =
        let (second, e1, h1) =
          reads-eq-ok
            (quote_single env via to (SwapAmount.with_desired_output a max_balance) filter) _ s h in
        let (first, e2, h2) =
          reads-eq-ok
            (quote_single env from via (SwapAmount.with_desired_output second.amount max_balance)
              filter)
            _ s h1 in
        let (within, h3) =
          require-eq-ok (leb first.amount m) (failed LiquidityProxyError.slippage_not_tolerated) _ s
            h2 in
        let (pair, s1, e4, h4) =
          bind-eq-ok (exchange_chain env who receiver from via to first.amount filter) _ s h3 in
        let taken =
          exchange_chain-takes env laws who balance promise receiver from via to first.amount filter
            s s1 pair differ e4 in
        let (fee, e5, h5) = reads-eq-ok (λ s. checked_fees pair.0.fee pair.1.fee) _ s1 h4 in
        let same : s1 ≡ s' = ap (λ r. r.1) h5 in
        let low = leb→le first.amount m within in
        subst (λ t. balance from s ≤ balance from t + m) same (omega arith)

    -- Where the sources keep their promise to the sender, an exchange that succeeds takes from the
    -- sender at most the desired input, or at most the largest input that is allowed for a desired
    -- output: over any number of sources, and by way of the base asset too.
    pub exchange-takes :
        (receiver input output : ℕ) (asked : SwapAmount ℕ) (filter : SourceFilter) (s : S) {s' : S}
        {o : SwapOutcome ℕ}
        → exchange env who receiver input output asked filter s ≡ (ok o, s')
        → balance input s ≤ balance input s' + limit_in asked
    unfolding exchange construct_trivial_path
    exchange-takes receiver input output asked filter s {s'} {o} h =
        let along = exchange-along who receiver input output asked filter s s' o h in
        elim (Bool-cases (nat_eq input base_asset || nat_eq output base_asset)) [
          | inl given ↦
              exchange_single-takes env laws who balance promise receiver input output asked filter
                s s' o (rw given at along)
          | inr other ↦
              exchange_twofold-takes receiver input base_asset output asked filter s s' o
                (λ e. ground (arith, nat_eq_iff input base_asset)) (rw other at along)
        ]

  -- The price that is returned along a path by way of the base asset is within the limit.
  abbrev pub IsTolerated : SwapAmount ℕ → SwapOutcome ℕ → Type 0
  IsTolerated (with_desired_input a min_out) o = min_out ≤ o.amount
  IsTolerated (with_desired_output a max_in) o = o.amount ≤ max_in

  tolerated :
      (sender receiver from via to : ℕ) (asked : SwapAmount ℕ) (filter : SourceFilter) (s s' : S)
      (o : SwapOutcome ℕ)
      → exchange_twofold env sender receiver from via to asked filter s ≡ (ok o, s')
      → IsTolerated asked o
  tolerated sender receiver from via to (with_desired_input a m) filter s s' o h =
      let (pair, s1, e1, h1) =
        bind-eq-ok (exchange_chain env sender receiver from via to a filter) _ s h in
      let (enough, h2) =
        require-eq-ok (leb m pair.1.amount) (failed LiquidityProxyError.slippage_not_tolerated) _ s1
          h1 in
      let (fee, e3, h3) = reads-eq-ok (λ s. checked_fees pair.0.fee pair.1.fee) _ s1 h2 in
      ground arith
  tolerated sender receiver from via to (with_desired_output a m) filter s s' o h =
      let (second, e1, h1) =
        reads-eq-ok (quote_single env via to (SwapAmount.with_desired_output a max_balance) filter)
          _ s h in
      let (first, e2, h2) =
        reads-eq-ok
          (quote_single env from via (SwapAmount.with_desired_output second.amount max_balance)
            filter)
          _ s h1 in
      let (within, h3) =
        require-eq-ok (leb first.amount m) (failed LiquidityProxyError.slippage_not_tolerated) _ s
          h2 in
      let (pair, s1, e4, h4) =
        bind-eq-ok (exchange_chain env sender receiver from via to first.amount filter) _ s h3 in
      let (fee, e5, h5) = reads-eq-ok (λ s. checked_fees pair.0.fee pair.1.fee) _ s1 h4 in
      ground arith

  -- Between two assets that are not the base asset, an exchange of a desired input that succeeds
  -- returns at least the wanted minimum, and one for a desired output at most the allowed maximum.
  pub exchange-IsTolerated :
      (sender receiver input output : ℕ) (asked : SwapAmount ℕ) (filter : SourceFilter) (s : S)
      {s' : S} {o : SwapOutcome ℕ}
      → input ≢ base_asset
      → output ≢ base_asset
      → exchange env sender receiver input output asked filter s ≡ (ok o, s')
      → IsTolerated asked o
  unfolding exchange construct_trivial_path
  exchange-IsTolerated sender receiver input output asked filter s {s'} {o} h k e =
      let along = exchange-along sender receiver input output asked filter s s' o e in
      let other : (nat_eq input base_asset || nat_eq output base_asset) ≡ false =
        ground (arith, nat_eq_iff input base_asset, nat_eq_iff output base_asset) in
      tolerated sender receiver input base_asset output asked filter s s' o (rw other at along)
