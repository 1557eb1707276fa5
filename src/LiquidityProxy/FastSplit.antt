-- ===== src/LiquidityProxy/FastSplit.antt =====
-- pallets/liquidity-proxy/src/lib.rs: the fast split of a trade between the primary market (the
-- bonding curve) and the secondary one (a pool of pairs), by their prices.
pub mod Fractions
use sora2_parachain.Prelude.{
  ℕ, Bool, true, false, ◌||◌, Option, some, none, List, [], ◌∷◌, nat_eq, ltb, if◌then◌else◌, ℤ, pos,
  ltb_ℤ,
}
use sora2_parachain.Common.Errors.{LiquidityProxyError}
use sora2_parachain.Common.Result.{ok, err, ensure, ◌>>=◌, ◌>>◌}
use sora2_parachain.Common.Fixed.{
  less, FixedWrapper, one, from_u128, try_into_balance, add, sub, mul, div, sqrt_accurate,
  multiply_and_sqrt,
}
use sora2_parachain.Common.SwapAmounts.{
  SwapAmount, with_desired_input, with_desired_output, amount, SwapOutcome,
}
use sora2_parachain.Common.Sources.{SourceId}
use sora2_parachain.LiquidityProxy.Config.{
  Env, AggregatedSwapOutcome, Fallible, failed, calculated, recast, or_default, unwrapped_checked,
  max_balance, wrapping_add,
}

-- `get().unwrap_or(fixed!(0))`
abbrev pub or_zero : FixedWrapper → ℤ
or_zero (ok a) = a
or_zero (err e) = pos 0

abbrev pub not_above_one : ℤ → ℤ
not_above_one f = if ltb_ℤ (pos one) f then pos one else f

abbrev pub not_below_zero : ℤ → ℤ
not_below_zero f = if ltb_ℤ f (pos 0) then pos 0 else f

-- fixed!(0.9)
abbrev pub nine_tenths : ℕ
nine_tenths = 900_000_000_000_000_000

-- What a part of the trade asks of its source.
abbrev pub part_amount : SwapAmount ℕ → ℕ → SwapAmount ℕ
part_amount (with_desired_input a m) part = with_desired_input part 0
part_amount (with_desired_output a m) part = with_desired_output part max_balance

abbrev pub in_two : SourceId → SourceId → ℤ × ℤ → List (SourceId × ℤ)
in_two primary secondary (prim, sec) = (primary, prim) ∷ (secondary, sec) ∷ []

module _ {S P : Type 0} (env : Env S P) where
  open env use {fx, registry, primary_market, secondary_market, base_asset}
  open registry use {source}

  -- The share of the secondary market, if its price is the better one.
  abbrev pub fraction_of : Bool → FixedWrapper → FixedWrapper → ℤ
  fraction_of better delta wrapped =
      if better then not_below_zero (not_above_one (or_zero (div fx delta wrapped))) else pos 0

  -- `(Fixed::ONE - fraction.into()).get().unwrap()`
  abbrev pub complement : ℤ → Fallible ℤ
  complement f = unwrapped_checked (fx.csub (pos one) f)

  -- The fractions of both markets, the primary one first.
  abbrev pub with_complement : ℤ → Fallible (ℤ × ℤ)
  with_complement sec = complement sec >>= λ prim. ok (prim, sec)

  -- One round of the loop over the distribution: the best amount and the fee so far.
  abbrev pub quote_part : SwapAmount ℕ → ℕ → ℕ → SourceId → ℕ → ℕ × ℕ → S → Fallible (ℕ × ℕ)
  quote_part asked input output id part (best, total_fee) s =
      if ltb 0 part
      then (recast (source.quote id input output (part_amount asked part) s) >>= λ o.
          ok (wrapping_add best o.amount, wrapping_add total_fee o.fee))
      else ok (best, total_fee)

  unfoldable pub quote_parts :
      SwapAmount ℕ → ℕ → ℕ → List (SourceId × ℤ) → ℕ × ℕ → S → Fallible (ℕ × ℕ)
  quote_parts asked input output [] acc s = ok acc
  quote_parts asked input output ((id, share) ∷ rest) acc s =
      calculated (try_into_balance (mul fx (from_u128 (amount asked)) (ok share))) >>= λ part.
      quote_part asked input output id part acc s >>= λ next.
      quote_parts asked input output rest next s

  unfoldable pub quote_distribution :
      SwapAmount ℕ → ℕ → ℕ → List (SourceId × ℤ) → S → Fallible AggregatedSwapOutcome
  unfolding quote_parts amount
  quote_distribution asked input output distribution s =
      quote_parts asked input output distribution (0, 0) s >>= λ (best, total_fee).
      ok (record { distribution = distribution; amount = best; fee = total_fee })

  -- The amount that the secondary market takes until its price is the primary one's.
  abbrev pub buying_delta :
      SwapAmount ℕ → FixedWrapper → FixedWrapper → FixedWrapper → FixedWrapper → FixedWrapper
  buying_delta (with_desired_input a m) x y sqrt_k sqrt_price = sub fx (mul fx sqrt_k sqrt_price) y
  buying_delta (with_desired_output a m) x y sqrt_k sqrt_price = sub fx x (div fx sqrt_k sqrt_price)

  abbrev pub selling_delta :
      SwapAmount ℕ → FixedWrapper → FixedWrapper → FixedWrapper → FixedWrapper → FixedWrapper
  selling_delta (with_desired_input a m) x y sqrt_k sqrt_price = sub fx (div fx sqrt_k sqrt_price) x
  selling_delta (with_desired_output a m) x y sqrt_k sqrt_price =
      sub fx y (mul fx sqrt_k sqrt_price)

  unfoldable pub decide_amounts_buying_base_asset :
      SourceId → SourceId → ℕ → ℕ → SwapAmount ℕ → ℕ × ℕ → S → Fallible AggregatedSwapOutcome
  unfolding quote_distribution
  decide_amounts_buying_base_asset primary secondary base collateral asked (in_base, in_other) s =
      do
        let x = from_u128 in_base
        let y = from_u128 in_other
        price ← recast (primary_market.buy_price base collateral s)
        let delta = buying_delta asked x y (multiply_and_sqrt fx x y) (sqrt_accurate fx (ok price))
        fractions ←
            with_complement
              (fraction_of (less (div fx y x) (ok price)) delta (from_u128 (amount asked)))
        quote_distribution asked collateral base (in_two primary secondary fractions) s

  -- Where the primary market has less collateral than its share asks for, it gets what nine tenths
  -- of its collateral make, and the secondary market the rest.
  abbrev pub reweighed : FixedWrapper → FixedWrapper → ℤ × ℤ → Fallible (ℤ × ℤ)
  reweighed collateral_reserves wrapped (prim, sec) =
      if less collateral_reserves (mul fx wrapped (ok prim))
      then (let less_prim =
            or_zero (div fx (mul fx (ok (pos nine_tenths)) collateral_reserves) wrapped) in
          complement less_prim >>= λ more_sec. ok (less_prim, more_sec))
      else ok (prim, sec)

  abbrev pub reweigh : SwapAmount ℕ → ℕ → ℤ × ℤ → S → Fallible (ℤ × ℤ)
  reweigh (with_desired_input a m) collateral fractions s = ok fractions
  reweigh (with_desired_output a m) collateral fractions s =
      or_default 0 (primary_market.collateral_reserves collateral s) >>= λ available.
      reweighed (from_u128 available) (from_u128 a) fractions

  unfoldable pub decide_amounts_selling_base_asset :
      SourceId → SourceId → ℕ → ℕ → SwapAmount ℕ → ℕ × ℕ → S → Fallible AggregatedSwapOutcome
  unfolding quote_distribution
  decide_amounts_selling_base_asset primary secondary base collateral asked (in_base, in_other) s =
      do
        let x = from_u128 in_base
        let y = from_u128 in_other
        price ← recast (primary_market.sell_price base collateral s)
        let delta = selling_delta asked x y (multiply_and_sqrt fx x y) (sqrt_accurate fx (ok price))
        first ←
            with_complement
              (fraction_of (less (ok price) (div fx y x)) delta (from_u128 (amount asked)))
        fractions ← reweigh asked collateral first s
        quote_distribution asked base collateral (in_two primary secondary fractions) s

  -- The quote of the primary market alone.
  abbrev pub only_primary :
      SourceId → SourceId → ℕ → ℕ → SwapAmount ℕ → S → Fallible AggregatedSwapOutcome
  only_primary primary secondary input output asked s =
      source.quote primary input output asked s >>= λ o. ok (record {
        distribution = in_two primary secondary (pos one, pos 0);
        amount = o.amount;
        fee = o.fee;
      })

  abbrev pub split_by_reserves :
      SourceId → SourceId → ℕ → ℕ → ℕ → SwapAmount ℕ → ℕ × ℕ → S → Fallible AggregatedSwapOutcome
  split_by_reserves primary secondary input output other asked (in_base, in_other) s =
      if nat_eq in_base 0 || nat_eq in_other 0
      then only_primary primary secondary input output asked s
      else (if nat_eq output base_asset
          then decide_amounts_buying_base_asset primary secondary base_asset other asked
              (in_base, in_other) s
          else decide_amounts_selling_base_asset primary secondary base_asset other asked
              (in_base, in_other) s)

  unfoldable pub fast_split_primary_vs_secondary :
      SourceId → SourceId → ℕ → ℕ → SwapAmount ℕ → S → Fallible AggregatedSwapOutcome
  unfolding decide_amounts_buying_base_asset decide_amounts_selling_base_asset
  fast_split_primary_vs_secondary primary secondary input output asked s = do
    ensure (nat_eq input base_asset || nat_eq output base_asset)
        (failed LiquidityProxyError.unavailable_exchange_path)
    let other = if nat_eq base_asset input then output else input
    split_by_reserves primary secondary input output other asked
        (secondary_market.reserves base_asset other s) s
