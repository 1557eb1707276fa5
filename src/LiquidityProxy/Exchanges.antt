-- ===== src/LiquidityProxy/Exchanges.antt =====
-- pallets/liquidity-proxy/src/lib.rs: the exchange of one pair of assets over a distribution, the
-- exchange along the path, and the extrinsic.
pub mod Takes
pub mod Limits
pub mod Agreement
use sora2_parachain.Prelude.{
  ℕ, Bool, true, false, not, List, [], ◌∷◌, nat_eq, leb, if◌then◌else◌, ℤ, pos, ltb_ℤ,
}
use sora2_parachain.Common.Errors.{LiquidityProxyError}
use sora2_parachain.Common.Result.{ok, err}
use sora2_parachain.Common.Effects.{
  Effect, ◌>>=◌, ◌>>◌, pure, reads, modify, require, with_transaction,
}
use sora2_parachain.Common.FrameSystem.{ensure_signed}
use sora2_parachain.Common.Fixed.{FixedWrapper, from_u128, add, try_into_balance}
use sora2_parachain.Common.Primitives.{FilterMode, LiquiditySourceType, Origin}
use sora2_parachain.Common.SwapAmounts.{
  SwapAmount, with_desired_input, with_desired_output, SwapOutcome, outcome, times, try_to_fixed,
  try_to_balance,
}
use sora2_parachain.Common.Utils.{with_mode}
use sora2_parachain.Common.Sources.{SourceId, SourceFilter}
use sora2_parachain.LiquidityProxy.Config.{
  Env, Exchange, failed, calculated, converted, unwrapped, max_balance,
}
use sora2_parachain.LiquidityProxy.Paths.{ExchangePath, direct, twofold, construct_trivial_path}
use sora2_parachain.LiquidityProxy.Quotes.{quote_single, checked_fees, wrapping_fees}

-- The amounts of the event.
abbrev pub amounts_of : SwapAmount ℕ → SwapOutcome ℕ → ℕ × ℕ
amounts_of (with_desired_input a m) o = (a, o.amount)
amounts_of (with_desired_output a m) o = (o.amount, a)

module _ {S P : Type 0} (env : Env S P) where
  open env use {fx, registry, technical_account}
  open registry use {source}

  -- The exchange of one share with its source.
  abbrev pub exchange_part : ℕ → ℕ → ℕ → ℕ → SwapAmount ℤ → SourceId → ℤ → Effect S (SwapOutcome ℕ)
  exchange_part sender receiver input output amounts id share = do
    scaled ← reads λ s. unwrapped (times fx amounts share)
    part ← reads λ s. converted (try_to_balance scaled)
    source.exchange sender receiver id input output part

  -- The shares above zero, one after the other, up to the first error.
  unfoldable pub exchange_parts :
      ℕ → ℕ → ℕ → ℕ → SwapAmount ℤ → List (SourceId × ℤ) → Effect S (List (SwapOutcome ℕ))
  unfolding times try_to_balance
  exchange_parts sender receiver input output amounts [] = pure []
  exchange_parts sender receiver input output amounts ((id, share) ∷ parts) =
      let rest = exchange_parts sender receiver input output amounts parts in
      if ltb_ℤ (pos 0) share
      then (exchange_part sender receiver input output amounts id share >>= λ o.
          rest >>= λ os. pure (o ∷ os))
      else rest

  -- The fold over the outcomes.
  abbrev pub sum_outcomes :
      List (SwapOutcome ℕ) → FixedWrapper × FixedWrapper → FixedWrapper × FixedWrapper
  sum_outcomes [] acc = acc
  sum_outcomes (o ∷ os) (total, fees) =
      sum_outcomes os (add fx total (from_u128 o.amount), add fx fees (from_u128 o.fee))

  unfoldable pub exchange_single :
      ℕ → ℕ → ℕ → ℕ → SwapAmount ℕ → SourceFilter → Effect S (SwapOutcome ℕ)
  unfolding quote_single exchange_parts try_to_fixed
  exchange_single sender receiver input output asked filter = with_transaction do
    amounts ← reads λ s. converted (try_to_fixed asked)
    quoted ← reads (quote_single env input output asked filter)
    os ← exchange_parts sender receiver input output amounts quoted.distribution
    let (total, fees) = sum_outcomes os (ok (pos 0), ok (pos 0))
    a ← reads λ s. calculated (try_into_balance total)
    f ← reads λ s. calculated (try_into_balance fees)
    pure (outcome a f)

  -- Both swaps by way of the base asset, from an exact input on.
  abbrev pub exchange_chain :
      ℕ → ℕ → ℕ → ℕ → ℕ → ℕ → SourceFilter → Effect S (SwapOutcome ℕ × SwapOutcome ℕ)
  exchange_chain sender receiver from via to a filter = do
    first ←
        exchange_single sender technical_account from via (SwapAmount.with_desired_input a 0) filter
    second ←
        exchange_single technical_account receiver via to
          (SwapAmount.with_desired_input first.amount 0) filter
    pure (first, second)

  abbrev pub exchange_twofold :
      ℕ → ℕ → ℕ → ℕ → ℕ → SwapAmount ℕ → SourceFilter → Effect S (SwapOutcome ℕ)
  exchange_twofold sender receiver from via to (with_desired_input a min_out) filter = do
    (first, second) ← exchange_chain sender receiver from via to a filter
    require (leb min_out second.amount) (failed LiquidityProxyError.slippage_not_tolerated)
    fee ← reads λ s. checked_fees first.fee second.fee
    pure (outcome second.amount fee)
  exchange_twofold sender receiver from via to (with_desired_output a max_in) filter = do
    second_quote ←
        reads (quote_single env via to (SwapAmount.with_desired_output a max_balance) filter)
    first_quote ← reads (
        quote_single env from via (SwapAmount.with_desired_output second_quote.amount max_balance)
          filter)
    require (leb first_quote.amount max_in) (failed LiquidityProxyError.slippage_not_tolerated)
    (first, second) ← exchange_chain sender receiver from via to first_quote.amount filter
    fee ← reads λ s. checked_fees first.fee second.fee
    pure (outcome first_quote.amount fee)

  abbrev pub exchange_along :
      ℕ → ℕ → ExchangePath → SwapAmount ℕ → SourceFilter → Effect S (SwapOutcome ℕ)
  exchange_along sender receiver (direct from to) asked filter =
      exchange_single sender receiver from to asked filter
  exchange_along sender receiver (twofold from via to) asked filter =
      exchange_twofold sender receiver from via to asked filter

  unfoldable pub exchange : ℕ → ℕ → ℕ → ℕ → SwapAmount ℕ → SourceFilter → Effect S (SwapOutcome ℕ)
  unfolding exchange_single construct_trivial_path with_transaction
  exchange sender receiver input output asked filter =
      require (not (nat_eq input output)) (failed LiquidityProxyError.unavailable_exchange_path)
      >> with_transaction
          (exchange_along sender receiver (construct_trivial_path env input output) asked filter)

  -- The same functions of `LiquidityProxyTrait`, in which the sum of the fees is not checked.
  abbrev pub trait_exchange_chain :
      ℕ → ℕ → ℕ → ℕ → ℕ → ℕ → SourceFilter → Effect S (SwapOutcome ℕ × SwapOutcome ℕ)
  trait_exchange_chain sender receiver from via to a filter = do
    first ←
        exchange_single sender technical_account from via (SwapAmount.with_desired_input a 0) filter
    second ←
        exchange_single technical_account receiver via to
          (SwapAmount.with_desired_input first.amount 0) filter
    pure (first, second)

  abbrev pub trait_exchange_twofold :
      ℕ → ℕ → ℕ → ℕ → ℕ → SwapAmount ℕ → SourceFilter → Effect S (SwapOutcome ℕ)
  trait_exchange_twofold sender receiver from via to (with_desired_input a min_out) filter = do
    (first, second) ← trait_exchange_chain sender receiver from via to a filter
    require (leb min_out second.amount) (failed LiquidityProxyError.slippage_not_tolerated)
    fee ← reads λ s. wrapping_fees first.fee second.fee
    pure (outcome second.amount fee)
  trait_exchange_twofold sender receiver from via to (with_desired_output a max_in) filter = do
    second_quote ←
        reads (quote_single env via to (SwapAmount.with_desired_output a max_balance) filter)
    first_quote ← reads (
        quote_single env from via (SwapAmount.with_desired_output second_quote.amount max_balance)
          filter)
    require (leb first_quote.amount max_in) (failed LiquidityProxyError.slippage_not_tolerated)
    (first, second) ← trait_exchange_chain sender receiver from via to first_quote.amount filter
    fee ← reads λ s. wrapping_fees first.fee second.fee
    pure (outcome first_quote.amount fee)

  abbrev pub trait_exchange_along :
      ℕ → ℕ → ExchangePath → SwapAmount ℕ → SourceFilter → Effect S (SwapOutcome ℕ)
  trait_exchange_along sender receiver (direct from to) asked filter =
      exchange_single sender receiver from to asked filter
  trait_exchange_along sender receiver (twofold from via to) asked filter =
      trait_exchange_twofold sender receiver from via to asked filter

  -- `exchange` of `LiquidityProxyTrait`
  unfoldable pub trait_exchange :
      ℕ → ℕ → ℕ → ℕ → SwapAmount ℕ → SourceFilter → Effect S (SwapOutcome ℕ)
  unfolding exchange_single construct_trivial_path with_transaction
  trait_exchange sender receiver input output asked filter =
      require (not (nat_eq input output)) (failed LiquidityProxyError.unavailable_exchange_path)
      >> with_transaction (
          trait_exchange_along sender receiver (construct_trivial_path env input output) asked
            filter)

  unfoldable pub swap :
      Origin
      → ℕ
      → ℕ
      → ℕ
      → SwapAmount ℕ
      → List LiquiditySourceType
      → FilterMode
      → Effect S (Unit {0})
  unfolding exchange with_mode
  swap origin dex_id input output asked types mode = do
    who ← ensure_signed origin
    o ← exchange who who input output asked (with_mode dex_id mode types)
    let (input_amount, output_amount) = amounts_of asked o
    modify (
        env.deposit_event (record {
          caller = who;
          dex_id = dex_id;
          input_asset_id = input;
          output_asset_id = output;
          input_amount = input_amount;
          output_amount = output_amount;
          fee = o.fee;
        }))
