-- ===== src/LiquidityProxy/Exchanges/Agreement.antt =====
-- pallets/liquidity-proxy/src/lib.rs: the functions of the pallet and those of its trait, and what a
-- call that fails leaves behind.
use sora2_parachain.Prelude.{ℕ, ◌+◌, ◌^◌, ◌%◌, ◌≤◌, ◌≡◌, ◌∙◌, sym, ap, not, List, nat_eq}
use sora2_parachain.Common.Errors.{DispatchError, LiquidityProxyError}
use sora2_parachain.Common.Result.{err}
use sora2_parachain.Common.Effects.{Effect, require-with_transaction-eq-err, then_modify-eq-err}
use sora2_parachain.Common.Alike.{IsAlike}
use sora2_parachain.Common.SwapAmounts.{SwapAmount, SwapOutcome}
use sora2_parachain.Common.Primitives.{
  FilterMode, LiquiditySourceType, Origin, signed, root, unsigned,
}
use sora2_parachain.Common.Utils.{with_mode}
use sora2_parachain.Common.Sources.{SourceFilter}
use sora2_parachain.LiquidityProxy.Config.{Env, failed, calculation_failed}
use sora2_parachain.LiquidityProxy.Paths.{construct_trivial_path}
use sora2_parachain.LiquidityProxy.Exchanges.{exchange_along, exchange, swap}

-- The outcome adds fees that leave the range of a balance, and their sum wraps around.
abbrev pub Wraps : SwapOutcome ℕ → Type 0
Wraps o = (a b : ℕ) × (2 ^ 128 ≤ a + b) × (o.fee ≡ (a + b) % 2 ^ 128)

module _ {S P : Type 0} (env : Env S P) where
  abbrev AreAlike : Effect S (SwapOutcome ℕ) → Effect S (SwapOutcome ℕ) → Type 0
  AreAlike = IsAlike calculation_failed Wraps

  exchange-atomic :
      (sender receiver input output : ℕ) (asked : SwapAmount ℕ) (filter : SourceFilter) (s : S)
      {e : DispatchError} {s' : S}
      → exchange env sender receiver input output asked filter s ≡ (err e, s')
      → s' ≡ s
  unfolding exchange
  exchange-atomic sender receiver input output asked filter s h =
      require-with_transaction-eq-err (not (nat_eq input output))
        (failed LiquidityProxyError.unavailable_exchange_path)
        (exchange_along env sender receiver (construct_trivial_path env input output) asked filter)
        s h

  -- A swap that fails changes nothing, whatever its sources wrote before the error.
  pub swap-atomic :
      (origin : Origin) (dex_id input output : ℕ) (asked : SwapAmount ℕ)
      (types : List LiquiditySourceType) (mode : FilterMode) (s : S) {e : DispatchError} {s' : S}
      → swap env origin dex_id input output asked types mode s ≡ (err e, s')
      → s' ≡ s
  unfolding swap
  swap-atomic (signed who) dex_id input output asked types mode s {e} {s'} h =
      let filter = with_mode dex_id mode types in
      let (s1, e1, same) =
        then_modify-eq-err (exchange env who who input output asked filter) _ s h in
      same ∙ exchange-atomic who who input output asked filter s e1
  swap-atomic root dex_id input output asked types mode s h = sym (ap (λ r. r.1) h)
  swap-atomic unsigned dex_id input output asked types mode s h = sym (ap (λ r. r.1) h)
