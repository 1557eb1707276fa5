-- ===== src/BondingCurve/Prices.antt =====
-- pallets/bonding-curve-pool/src/lib.rs: the prices of the curve. An operation between a wrapped and
-- an unwrapped number is the one between wrapped numbers: which arithmetic error a price fails with
-- is not seen, for every one becomes `CalculatePriceFailed`.
use sora2_parachain.Prelude.{ℕ, ℤ, ◌*◌}
use sora2_parachain.Common.Result.{ok, ◌>>=◌}
use sora2_parachain.Common.Fixed.{
  Fixnum, FixedWrapper, one, from_u128, add, sub, mul, div, sqrt_accurate,
}
use sora2_parachain.Common.SwapAmounts.{
  SwapAmount, with_desired_input, with_desired_output, bits_to_balance,
}
use sora2_parachain.Assets.Transfers.{total_issuance}
use sora2_parachain.BondingCurve.Defs.{
  Fallible, priced, converted, SwapKind, buy, sell, Curve, State, Env,
}

-- balance!(2)
abbrev pub two : FixedWrapper
two = from_u128 (2 * one)

module _ (fx : Fixnum) (c : Curve) where
  -- `(Q' / (2 * PC_S * PC_R) + P_I) * Q'`
  abbrev pub integral : FixedWrapper → FixedWrapper
  integral q =
      mul fx
        (add fx (div fx q (mul fx (mul fx two (ok c.price_change_step)) (ok c.price_change_rate)))
          (ok c.initial_price))
        q

  -- `price` of `price_for_main_asset`, for the issuance `q`.
  abbrev pub main_price : SwapKind → FixedWrapper → ℕ → FixedWrapper
  main_price buy q quantity = sub fx (integral (add fx q (from_u128 quantity))) (integral q)
  main_price sell q quantity =
      mul fx (ok c.sell_price_coefficient)
        (sub fx (integral q) (integral (sub fx q (from_u128 quantity))))

  abbrev pub step_times_rate : FixedWrapper
  step_times_rate = mul fx (ok c.price_change_step) (ok c.price_change_rate)

  -- `PC_S_times_PC_R_times_P_I`
  abbrev pub scaled_initial : FixedWrapper
  scaled_initial = mul fx step_times_rate (ok c.initial_price)

  -- `under_sqrt` of a purchase and of a sale.
  abbrev pub under_sqrt_buy : FixedWrapper → FixedWrapper → FixedWrapper
  under_sqrt_buy q out_price = add fx (add fx (mul fx q q) (mul fx (mul fx two q) scaled_initial)) (
      mul fx step_times_rate
        (add fx (mul fx scaled_initial (ok c.initial_price)) (mul fx two out_price)))

  -- `inner_term_a` of a sale.
  abbrev pub sale_term : FixedWrapper → FixedWrapper
  sale_term q =
      add fx (div fx (mul fx q (ok c.sell_price_coefficient)) step_times_rate)
        (mul fx (ok c.initial_price) (ok c.sell_price_coefficient))

  abbrev pub under_sqrt_sell : FixedWrapper → FixedWrapper → FixedWrapper
  under_sqrt_sell q out_price =
      sub fx (mul fx (sale_term q) (sale_term q))
        (div fx (mul fx (mul fx two (ok c.sell_price_coefficient)) out_price) step_times_rate)

  -- `price` of `price_for_collateral_asset`.
  abbrev pub collateral_price : SwapKind → FixedWrapper → ℕ → FixedWrapper
  collateral_price buy q quantity =
      sub fx (sub fx (sqrt_accurate fx (under_sqrt_buy q (from_u128 quantity))) q) scaled_initial
  collateral_price sell q quantity = sub fx (add fx q scaled_initial) (
      div fx (mul fx step_times_rate (sqrt_accurate fx (under_sqrt_sell q (from_u128 quantity))))
        (ok c.sell_price_coefficient))

module _ {S L R : Type 0} (env : Env S L R) where
  open env use {technical_env, fx}
  open technical_env use {assets_env}

  unfoldable pub buy_price_for_one_main_asset : ℕ → State S L R → Fallible ℤ
  buy_price_for_one_main_asset asset s =
      total_issuance assets_env asset s.technical.assets >>= λ issued.
      priced
        (add fx (div fx (from_u128 issued) (step_times_rate fx s.curve)) (ok s.curve.initial_price))

  unfoldable pub sell_price_for_one_main_asset : ℕ → State S L R → Fallible ℤ
  unfolding buy_price_for_one_main_asset
  sell_price_for_one_main_asset asset s = buy_price_for_one_main_asset asset s >>= λ price.
      priced (mul fx (ok s.curve.sell_price_coefficient) (ok price))

  unfoldable pub price_for_main_asset : ℕ → ℕ → SwapKind → State S L R → Fallible ℤ
  price_for_main_asset asset quantity kind s =
      total_issuance assets_env asset s.technical.assets >>= λ issued.
      priced (main_price fx s.curve kind (from_u128 issued) quantity)

  unfoldable pub price_for_collateral_asset : ℕ → ℕ → SwapKind → State S L R → Fallible ℤ
  price_for_collateral_asset asset quantity kind s =
      total_issuance assets_env asset s.technical.assets >>= λ issued.
      priced (collateral_price fx s.curve kind (from_u128 issued) quantity)

  -- The input and the output of a purchase of the main asset, and of a sale. The limits of the
  -- amount are not looked at.
  unfoldable pub decide_buy_amounts : ℕ → SwapAmount ℕ → State S L R → Fallible (ℕ × ℕ)
  unfolding price_for_main_asset price_for_collateral_asset
  decide_buy_amounts main (with_desired_input amount_in min) s =
      price_for_collateral_asset main amount_in buy s >>= λ price.
      converted (bits_to_balance price) >>= λ out. ok (amount_in, out)
  decide_buy_amounts main (with_desired_output amount_out max) s =
      price_for_main_asset main amount_out buy s >>= λ price.
      converted (bits_to_balance price) >>= λ input. ok (input, amount_out)

  unfoldable pub decide_sell_amounts : ℕ → SwapAmount ℕ → State S L R → Fallible (ℕ × ℕ)
  unfolding price_for_main_asset price_for_collateral_asset
  decide_sell_amounts main (with_desired_input amount_in min) s =
      price_for_main_asset main amount_in sell s >>= λ price.
      converted (bits_to_balance price) >>= λ out. ok (amount_in, out)
  decide_sell_amounts main (with_desired_output amount_out max) s =
      price_for_collateral_asset main amount_out sell s >>= λ price.
      converted (bits_to_balance price) >>= λ input. ok (input, amount_out)
