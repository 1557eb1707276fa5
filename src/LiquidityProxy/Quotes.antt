-- ===== src/LiquidityProxy/Quotes.antt =====
-- pallets/liquidity-proxy/src/lib.rs: the quote of a trade on one pair of assets, and the quote
-- along its path.
pub mod Portions
use sora2_parachain.Prelude.{
  ℕ, Bool, true, false, not, Option, none, some, List, [], ◌∷◌, nat_eq, if◌then◌else◌, pos,
}
use sora2_parachain.Common.Errors.{LiquidityProxyError}
use sora2_parachain.Common.Result.{ok, err, ensure, ◌>>=◌, ◌>>◌}
use sora2_parachain.Common.Fixed.{one}
use sora2_parachain.Common.Primitives.{multicollateral_bonding_curve_pool, source_beq}
use sora2_parachain.Common.SwapAmounts.{
  SwapAmount, with_desired_input, with_desired_output, SwapOutcome, outcome,
}
use sora2_parachain.Common.Sources.{SourceId, SourceFilter}
use sora2_parachain.LiquidityProxy.Config.{
  Env, AggregatedSwapOutcome, Fallible, failed, converted, checked_add, wrapping_add, max_balance,
}
use sora2_parachain.LiquidityProxy.Paths.{ExchangePath, direct, twofold, construct_trivial_path}
use sora2_parachain.LiquidityProxy.FastSplit.{fast_split_primary_vs_secondary}
use sora2_parachain.LiquidityProxy.GenericSplit.{generic_split}

-- The loop over the sources: the last one of the primary market, and the last one of another.
abbrev pub Markets : Type 0
Markets = Option SourceId × Option SourceId

abbrev pub note_market : SourceId → Markets → Markets
note_market id (primary, secondary) =
    if source_beq id.liquidity_source_index multicollateral_bonding_curve_pool
    then (some id, secondary)
    else (primary, some id)

-- The sum of two fees: checked in the functions of the pallet, and `+` in those of the trait
-- `LiquidityProxyTrait`, which wraps in a release build.
abbrev pub AddFees : Type 0
AddFees = ℕ → ℕ → Fallible ℕ

abbrev pub checked_fees : AddFees
checked_fees a b = converted (checked_add a b)

abbrev pub wrapping_fees : AddFees
wrapping_fees a b = ok (wrapping_add a b)

module _ {S P : Type 0} (env : Env S P) where
  open env use {registry}
  open registry use {source, list_liquidity_sources}

  abbrev pub split_in_two :
      Markets → List SourceId → ℕ → ℕ → SwapAmount ℕ → S → Fallible AggregatedSwapOutcome
  split_in_two (some primary, some secondary) ids input output asked s =
      fast_split_primary_vs_secondary env primary secondary input output asked s
  split_in_two (some primary, none) ids input output asked s =
      generic_split env ids input output asked s
  split_in_two (none, secondary) ids input output asked s =
      generic_split env ids input output asked s

  abbrev pub split : List SourceId → ℕ → ℕ → SwapAmount ℕ → S → Fallible AggregatedSwapOutcome
  split [] input output asked s = err (failed LiquidityProxyError.unavailable_exchange_path)
  split (id ∷ []) input output asked s = source.quote id input output asked s >>= λ o.
      ok (record { distribution = (id, pos one) ∷ []; amount = o.amount; fee = o.fee })
  split (a ∷ b ∷ []) input output asked s =
      split_in_two (note_market b (note_market a (none, none))) (a ∷ b ∷ []) input output asked s
  split (a ∷ b ∷ c ∷ ids) input output asked s =
      generic_split env (a ∷ b ∷ c ∷ ids) input output asked s

  unfoldable pub quote_single :
      ℕ → ℕ → SwapAmount ℕ → SourceFilter → S → Fallible AggregatedSwapOutcome
  unfolding fast_split_primary_vs_secondary generic_split
  quote_single input output asked filter s =
      list_liquidity_sources input output filter s >>= λ ids. split ids input output asked s

  -- The two quotes of a trade by way of the base asset, from the side that is given.
  abbrev pub quote_twofold :
      AddFees → ℕ → ℕ → ℕ → SwapAmount ℕ → SourceFilter → S → Fallible (SwapOutcome ℕ)
  quote_twofold sum from via to (with_desired_input a m) filter s = do
    first ← quote_single from via (SwapAmount.with_desired_input a 0) filter s
    second ← quote_single via to (SwapAmount.with_desired_input first.amount 0) filter s
    fee ← sum first.fee second.fee
    ok (outcome second.amount fee)
  quote_twofold sum from via to (with_desired_output a m) filter s = do
    second ← quote_single via to (SwapAmount.with_desired_output a max_balance) filter s
    first ←
        quote_single from via (SwapAmount.with_desired_output second.amount max_balance) filter s
    fee ← sum first.fee second.fee
    ok (outcome first.amount fee)

  abbrev pub quote_along :
      AddFees → ExchangePath → SwapAmount ℕ → SourceFilter → S → Fallible (SwapOutcome ℕ)
  quote_along sum (direct from to) asked filter s =
      quote_single from to asked filter s >>= λ o. ok (outcome o.amount o.fee)
  quote_along sum (twofold from via to) asked filter s =
      quote_twofold sum from via to asked filter s

  abbrev pub quote_with :
      AddFees → ℕ → ℕ → SwapAmount ℕ → SourceFilter → S → Fallible (SwapOutcome ℕ)
  quote_with sum input output asked filter s =
      ensure (not (nat_eq input output)) (failed LiquidityProxyError.unavailable_exchange_path)
      >> quote_along sum (construct_trivial_path env input output) asked filter s

  unfoldable pub quote : ℕ → ℕ → SwapAmount ℕ → SourceFilter → S → Fallible (SwapOutcome ℕ)
  unfolding quote_single construct_trivial_path
  quote = quote_with checked_fees

  -- `quote` of `LiquidityProxyTrait`
  unfoldable pub trait_quote : ℕ → ℕ → SwapAmount ℕ → SourceFilter → S → Fallible (SwapOutcome ℕ)
  unfolding quote_single construct_trivial_path
  trait_quote = quote_with wrapping_fees
