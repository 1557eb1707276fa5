-- ===== src/LiquidityProxy/Quotes/Portions.antt =====
-- pallets/liquidity-proxy/src/lib.rs: a quote never hands out more than the whole trade.
use sora2_parachain.Prelude.{
  ℕ, ◌≡◌, refl, subst, sym, ◌&&◌, none, some, List, [], ◌∷◌, map, arith, ℤ, pos, ltb_ℤ,
}
use sora2_parachain.Common.Errors.{LiquidityProxyError}
use sora2_parachain.Common.Result.{ok, >>=-eq-ok, ensure-eq-ok}
use sora2_parachain.Common.Fixed.{IsFloored, one, max_bits, to_u128}
use sora2_parachain.Common.SwapAmounts.{SwapAmount, balance_to_bits, saturated_to_fixed}
use sora2_parachain.Common.Sources.{SourceId, SourceFilter}
use sora2_parachain.LiquidityProxy.Algo.{find_distribution}
use sora2_parachain.LiquidityProxy.Config.{
  Env, AggregatedSwapOutcome, failed, unwrapped, unwrapped-inversion, converted, calculated,
}
use sora2_parachain.LiquidityProxy.Shares.{WithinBudget-zip, IsPartial}
use sora2_parachain.LiquidityProxy.FastSplit.Fractions.{IsApportioned, fast_split-IsApportioned}
use sora2_parachain.LiquidityProxy.GenericSplit.{
  sample_sources, total_fees, aggregated, generic_split, is_inversed, zip,
}
use sora2_parachain.LiquidityProxy.GenericSplit.Portions.{find_distribution-WithinBudget}
use sora2_parachain.LiquidityProxy.Quotes.{Markets, note_market, split_in_two, split, quote_single}

IsApportioned-IsPartial :
    (primary secondary : SourceId) (d : List (SourceId × ℤ))
    → IsApportioned primary secondary d
    → IsPartial d
IsApportioned-IsPartial primary secondary d (p, q, e, whole) =
    subst IsPartial (sym e) (p, refl, omega arith, (q, refl, omega arith, tt))

module _ {S P : Type 0} (env : Env S P) (laws : IsFloored env.fx) where
  open env use {fx}

  aggregated-distribution :
      (ids : List SourceId) (fees : List (List ℤ)) (found : List ℤ × ℤ) {o : AggregatedSwapOutcome}
      → aggregated env ids fees found ≡ ok o
      → zip ids found.0 ≡ o.distribution
  aggregated-distribution ids fees (shares, best) h =
      let (in_range, h1) =
        ensure-eq-ok (ltb_ℤ (pos 0) best && ltb_ℤ best (pos max_bits))
          (failed LiquidityProxyError.aggregation_error) _ h in
      let (whole, e1, h2) = >>=-eq-ok (converted (balance_to_bits env.num_samples)) _ h1 in
      let (total, e2, h3) = >>=-eq-ok (total_fees env shares fees (ok (pos 0))) _ h2 in
      let (fee, e3, h4) = >>=-eq-ok (calculated total) _ h3 in
      let (best_amount, e4, h5) = >>=-eq-ok (calculated (to_u128 best)) _ h4 in
      let (fee_amount, e5, h6) = >>=-eq-ok (calculated (to_u128 fee)) _ h5 in ground arith

  generic-IsPartial :
      (ids : List SourceId) (input output : ℕ) (asked : SwapAmount ℕ) (s : S)
      {o : AggregatedSwapOutcome}
      → generic_split env ids input output asked s ≡ ok o
      → IsPartial o.distribution
  unfolding generic_split
  generic-IsPartial ids input output asked s h =
      let (rows, e1, h1) =
        >>=-eq-ok (sample_sources env ids input output (saturated_to_fixed asked) s) _ h in
      let samples = map (map (λ o. o.amount)) rows in
      let (found, e2, h2) =
        >>=-eq-ok (unwrapped (find_distribution fx (is_inversed asked) samples)) _ h1 in
      let portions =
        find_distribution-WithinBudget fx laws (is_inversed asked) samples
          (unwrapped-inversion (find_distribution fx (is_inversed asked) samples) e2) in
      subst IsPartial (aggregated-distribution ids (map (map (λ o. o.fee)) rows) found h2)
        (WithinBudget-zip one ids found.0 portions)

  markets-IsPartial :
      (m : Markets) (ids : List SourceId) (input output : ℕ) (asked : SwapAmount ℕ) (s : S)
      {o : AggregatedSwapOutcome}
      → split_in_two env m ids input output asked s ≡ ok o
      → IsPartial o.distribution
  markets-IsPartial (some primary, some secondary) ids input output asked s {o} h =
      IsApportioned-IsPartial primary secondary o.distribution
        (fast_split-IsApportioned env laws primary secondary input output asked s h)
  markets-IsPartial (some primary, none) ids input output asked s h =
      generic-IsPartial ids input output asked s h
  markets-IsPartial (none, secondary) ids input output asked s h =
      generic-IsPartial ids input output asked s h

  split-IsPartial :
      (ids : List SourceId) (input output : ℕ) (asked : SwapAmount ℕ) (s : S)
      {o : AggregatedSwapOutcome}
      → split env ids input output asked s ≡ ok o
      → IsPartial o.distribution
  split-IsPartial [] input output asked s h = absurd (ground arith)
  split-IsPartial (id ∷ []) input output asked s {o} h =
      let (q, e, k) = >>=-eq-ok (env.registry.source.quote id input output asked s) _ h in
      let same : (id, pos one) ∷ [] ≡ o.distribution = ground arith in
      subst IsPartial same (one, refl, omega arith, tt)
  split-IsPartial (a ∷ b ∷ []) input output asked s h =
      markets-IsPartial (note_market b (note_market a (none, none))) (a ∷ b ∷ []) input output asked
        s h
  split-IsPartial (a ∷ b ∷ c ∷ ids) input output asked s h =
      generic-IsPartial (a ∷ b ∷ c ∷ ids) input output asked s h

  -- However a quote of one pair of assets is made (from one source, from both markets, or by
  -- samples), the shares that it gives the sources are not negative and at most one together.
  pub quote_single-IsPartial :
      (input output : ℕ) (asked : SwapAmount ℕ) (filter : SourceFilter) (s : S)
      {o : AggregatedSwapOutcome}
      → quote_single env input output asked filter s ≡ ok o
      → IsPartial o.distribution
  unfolding quote_single
  quote_single-IsPartial input output asked filter s h =
      let (ids, e, k) = >>=-eq-ok (env.registry.list_liquidity_sources input output filter s) _ h in
      split-IsPartial ids input output asked s k
