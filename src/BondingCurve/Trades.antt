-- ===== src/BondingCurve/Trades.antt =====
-- pallets/bonding-curve-pool/src/lib.rs: the sale of the main asset, the account of the reserves, and
-- the pallet as a source of liquidity.
use sora2_parachain.Prelude.{ℕ, Bool, ◌&&◌, ◌||◌, not, nat_eq, leb, [], ◌∷◌, if◌then◌else◌, ℤ}
use sora2_parachain.Common.Result.{Result, ok}
use sora2_parachain.Common.Result
use sora2_parachain.Common.Effects.{
  Effect, ◌>>=◌, ◌>>◌, pure, reads, gets, modify, require, with_transaction,
}
use sora2_parachain.Common.Fixed.{from_u128, try_into_balance, mul, wrapping_sub}
use sora2_parachain.Common.Errors.{not_enough_reserves, cant_exchange, cant_exchange_on_itself}
use sora2_parachain.Common.Primitives.{TechAccountId}
use sora2_parachain.Common.SwapAmounts.{
  SwapAmount, with_desired_input, with_desired_output, SwapOutcome, outcome, outcome_to_balance,
}
use sora2_parachain.Common.Sources.{LiquiditySource}
use sora2_parachain.Permissions.Defs.{burn_id, mint_id, transfer_id}
use sora2_parachain.Assets.Transfers.{total_balance, burn_from}
use sora2_parachain.Technical.{tech_account_id_to_account_id, transfer_out}
use sora2_parachain.Technical.Assign.{assign_permissions}
use sora2_parachain.BondingCurve.Defs.{
  Fallible, failed, priced, converted, buy, sell, State, Env, polkaswap, in_technical, in_assets,
}
use sora2_parachain.BondingCurve.Prices.{
  price_for_main_asset, price_for_collateral_asset, decide_sell_amounts,
}
use sora2_parachain.BondingCurve.Reserves.{new, swap}

module _ {S L R : Type 0} (env : Env S L R) where
  open env use {technical_env, fx, base_asset, usdt}
  open technical_env use {assets_env}

  -- The steps of `sell_main_asset`, from the last one: the payment and the burning,
  abbrev pub move_sale :
      TechAccountId → ℕ → ℕ → ℕ → ℕ → ℕ → ℕ → ℕ → ℕ → Effect (State S L R) (SwapOutcome ℕ)
  move_sale tech reserves input output from to input_amount transfer_amount fee = do
    in_technical (transfer_out technical_env output tech to transfer_amount)
    in_assets (burn_from assets_env input reserves from input_amount)
    pure (outcome transfer_amount fee)

  -- the test of the reserves,
  abbrev pub pay_sale :
      TechAccountId → ℕ → ℕ → ℕ → ℕ → ℕ → ℕ → ℕ → ℕ → Effect (State S L R) (SwapOutcome ℕ)
  pay_sale tech reserves input output from to input_amount transfer_amount fee = do
    in_reserves ← reads λ s. total_balance assets_env output reserves s.technical.assets
    require (leb transfer_amount in_reserves) (failed not_enough_reserves)
    move_sale tech reserves input output from to input_amount transfer_amount fee

  abbrev pub fee_of : ℕ → State S L R → Fallible ℕ
  fee_of amount s = priced (try_into_balance (mul fx (ok s.curve.fee) (from_u128 amount)))

  -- and the fee.
  abbrev pub settle_sale :
      TechAccountId → ℕ → ℕ → ℕ → ℕ → ℕ → ℕ × ℕ → Effect (State S L R) (SwapOutcome ℕ)
  settle_sale tech reserves input output from to (input_amount, output_amount) = do
    fee ← reads (fee_of output_amount)
    pay_sale tech reserves input output from to input_amount (wrapping_sub output_amount fee) fee

  -- The exchange that the source passes is not used.
  unfoldable pub sell_main_asset :
      ℕ → ℕ → SwapAmount ℕ → ℕ → ℕ → Effect (State S L R) (SwapOutcome ℕ)
  unfolding tech_account_id_to_account_id decide_sell_amounts total_balance transfer_out burn_from
  sell_main_asset input output amount from to = with_transaction do
    tech ← gets λ s. s.reserves_acc
    reserves ← reads λ s. tech_account_id_to_account_id technical_env tech
    amounts ← reads (decide_sell_amounts env input amount)
    settle_sale tech reserves input output from to amounts

  unfoldable pub set_reserves_account_id : TechAccountId → Effect (State S L R) (Unit {0})
  unfolding tech_account_id_to_account_id assign_permissions
  set_reserves_account_id tech = with_transaction do
    modify λ s. record s { reserves_acc = tech }
    account ← reads λ s. tech_account_id_to_account_id technical_env tech
    in_technical (assign_permissions technical_env account (burn_id ∷ mint_id ∷ transfer_id ∷ []))

  -- It trades only XOR and USDT, on Polkaswap.
  unfoldable pub can_exchange : ℕ → ℕ → ℕ → Bool
  can_exchange dex input output =
      nat_eq dex polkaswap
      && ((nat_eq input usdt && nat_eq output base_asset)
          || (nat_eq output usdt && nat_eq input base_asset))

  -- The fee of a quote, and the outcome in balances.
  abbrev pub quoted : ℤ → State S L R → Fallible (SwapOutcome ℕ)
  quoted price s =
      Result.◌>>=◌ (priced (mul fx (ok price) (ok s.curve.fee)))
        λ fee. converted (outcome_to_balance (outcome price fee))

  unfoldable pub quote_amount : ℕ → ℕ → SwapAmount ℕ → State S L R → Fallible ℤ
  unfolding price_for_main_asset price_for_collateral_asset
  quote_amount input output (with_desired_input amount_in min) s =
      if nat_eq input base_asset
      then price_for_main_asset env input amount_in sell s
      else price_for_collateral_asset env input amount_in buy s
  quote_amount input output (with_desired_output amount_out max) s =
      if nat_eq input base_asset
      then price_for_collateral_asset env input amount_out sell s
      else price_for_main_asset env output amount_out buy s

  unfoldable pub quote : ℕ → ℕ → ℕ → SwapAmount ℕ → State S L R → Fallible (SwapOutcome ℕ)
  unfolding can_exchange quote_amount
  quote dex input output amount s =
      Result.◌>>◌ (Result.ensure (can_exchange dex input output) (failed cant_exchange))
        (Result.◌>>=◌ (quote_amount input output amount s) λ price. quoted price s)

  abbrev pub buy_main_asset : ℕ → ℕ → SwapAmount ℕ → ℕ → ℕ → Effect (State S L R) (SwapOutcome ℕ)
  buy_main_asset input output amount from to = do
    b ← reads (new env input output amount from to)
    swap env b

  unfoldable pub exchange : ℕ → ℕ → ℕ → ℕ → ℕ → SwapAmount ℕ → Effect (State S L R) (SwapOutcome ℕ)
  unfolding tech_account_id_to_account_id can_exchange sell_main_asset new swap
  exchange sender receiver dex input output amount = do
    reserves ← reads λ s. tech_account_id_to_account_id technical_env s.reserves_acc
    require (not (nat_eq sender reserves && nat_eq receiver reserves))
        (failed cant_exchange_on_itself)
    require (can_exchange dex input output) (failed cant_exchange)
    (if nat_eq input base_asset
        then sell_main_asset input output amount sender receiver
        else buy_main_asset input output amount sender receiver)

  -- The pallet behind the gateway.
  unfoldable pub bonding_curve : LiquiditySource ℕ (State S L R)
  unfolding can_exchange quote exchange
  bonding_curve = record {
    can_exchange = λ dex input output s. can_exchange dex input output;
    quote = quote;
    exchange = exchange;
  }
