-- ===== src/BondingCurve/Reserves.antt =====
-- pallets/bonding-curve-pool/src/lib.rs: `BuyMainAsset`, the purchase of the main asset: the deposit
-- into the reserves, the distribution of what the reserves have over, and the minting.
use sora2_parachain.Prelude.{ℕ, List, [], ◌∷◌, nat_eq, if◌then◌else◌}
use sora2_parachain.Common.Result.{ok}
use sora2_parachain.Common.Effects.{Effect, ◌>>=◌, ◌>>◌, pure, reads, gets, with_transaction}
use sora2_parachain.Common.Fixed.{
  FixedWrapper, from_u128, try_into_balance, sub, mul, less, wrapping_sub,
}
use sora2_parachain.Common.Primitives.{TechAccountId}
use sora2_parachain.Common.SwapAmounts.{SwapAmount, with_desired_input, SwapOutcome, outcome}
use sora2_parachain.Assets.Transfers.{total_issuance, total_balance, transfer_from, mint_to}
use sora2_parachain.Technical.{tech_account_id_to_account_id, transfer_in, transfer, burn, mint}
use sora2_parachain.BondingCurve.Defs.{
  Fallible, priced, DistributionAccount, account, tech_account, DistributionAccountData,
  xor_distribution_as_array, sell, State, Env, polkaswap, in_technical, in_assets,
}
use sora2_parachain.BondingCurve.Prices.{price_for_main_asset, decide_buy_amounts}

-- `struct BuyMainAsset`
pub record BuyMainAsset : Type 0 where
  pub in_asset_id : ℕ
  pub out_asset_id : ℕ
  pub amount : SwapAmount ℕ
  pub from_account_id : ℕ
  pub to_account_id : ℕ
  pub reserves_tech_account_id : TechAccountId
  pub reserves_account_id : ℕ

-- fixed!(0.2)
abbrev pub free_coefficient : FixedWrapper
free_coefficient = from_u128 200_000_000_000_000_000

module _ {S L R : Type 0} (env : Env S L R) where
  open env use {technical_env, dex_api, fx, val}
  open technical_env use {assets_env}

  unfoldable pub new : ℕ → ℕ → SwapAmount ℕ → ℕ → ℕ → State S L R → Fallible BuyMainAsset
  unfolding tech_account_id_to_account_id
  new input output amount from to s =
      sora2_parachain.Common.Result.◌>>=◌
        (tech_account_id_to_account_id technical_env s.reserves_acc)
        λ reserves. ok (record {
          in_asset_id = input;
          out_asset_id = output;
          amount = amount;
          from_account_id = from;
          to_account_id = to;
          reserves_tech_account_id = s.reserves_acc;
          reserves_account_id = reserves;
        })

  -- What the reserves have over what the sale of all that was issued would cost.
  abbrev pub free_amount : FixedWrapper → FixedWrapper → Fallible ℕ
  free_amount expected reserves =
      if less expected reserves
      then priced (try_into_balance (mul fx (sub fx reserves expected) free_coefficient))
      else ok 0

  unfoldable pub deposit_input : BuyMainAsset → Effect (State S L R) (ℕ × ℕ × ℕ)
  unfolding decide_buy_amounts price_for_main_asset total_issuance total_balance transfer_in
  deposit_input b = with_transaction do
    (input_amount, output_amount) ← reads (decide_buy_amounts env b.out_asset_id b.amount)
    issued ← reads λ s. total_issuance assets_env b.out_asset_id s.technical.assets
    expected ← reads (price_for_main_asset env b.out_asset_id issued sell)
    in_technical (
        transfer_in technical_env b.in_asset_id b.from_account_id b.reserves_tech_account_id
          input_amount)
    reserves ←
        reads λ s. total_balance assets_env b.in_asset_id b.reserves_account_id s.technical.assets
    free ← reads λ s. free_amount (ok expected) (from_u128 reserves)
    pure (free, input_amount, output_amount)

  -- The share of one account.
  abbrev pub distribute_to :
      BuyMainAsset → ℕ → DistributionAccount → Effect (State S L R) (Unit {0})
  distribute_to b amount (account to) = do
    reserves ← reads λ s. tech_account_id_to_account_id technical_env b.reserves_tech_account_id
    in_assets (transfer_from assets_env b.out_asset_id reserves to amount)
  distribute_to b amount (tech_account to) =
      in_technical (transfer technical_env b.out_asset_id b.reserves_tech_account_id to amount)

  -- The loop over `xor_distribution_as_array`.
  unfoldable pub distribute_xor :
      BuyMainAsset → ℕ → List DistributionAccountData → Effect (State S L R) (Unit {0})
  unfolding tech_account_id_to_account_id transfer_from transfer
  distribute_xor b swapped [] = pure tt
  distribute_xor b swapped (d ∷ rest) = do
    amount ← reads λ s. priced (try_into_balance (mul fx (from_u128 swapped) (ok d.coefficient)))
    distribute_to b amount d.account
    distribute_xor b swapped rest

  -- An exchange of the reserves on the same pool's exchange.
  abbrev pub exchange_reserves : BuyMainAsset → ℕ → ℕ → ℕ → Effect (State S L R) (SwapOutcome ℕ)
  exchange_reserves b input output amount =
      dex_api.exchange b.reserves_account_id b.reserves_account_id polkaswap input output
        (with_desired_input amount 0)

  -- What `distribute_reserves` does with an amount that is not zero.
  unfoldable pub distribute_free : BuyMainAsset → ℕ → Effect (State S L R) (Unit {0})
  unfolding distribute_xor burn mint xor_distribution_as_array
  distribute_free b free = do
    swapped ← exchange_reserves b b.in_asset_id b.out_asset_id free
    in_technical (burn technical_env b.out_asset_id b.reserves_tech_account_id swapped.amount)
    in_technical (mint technical_env b.out_asset_id b.reserves_tech_account_id swapped.amount)
    d ← gets λ s. s.distribution_accounts
    distribute_xor b swapped.amount (xor_distribution_as_array d)
    desired_amount_in ← reads λ s.
        priced (try_into_balance (mul fx (from_u128 swapped.amount) (ok d.val_holders.coefficient)))
    bought ← exchange_reserves b b.out_asset_id val desired_amount_in
    in_technical (burn technical_env val b.reserves_tech_account_id bought.amount)

  unfoldable pub distribute_reserves : BuyMainAsset → ℕ → Effect (State S L R) (Unit {0})
  unfolding distribute_free
  distribute_reserves b free =
      with_transaction (if nat_eq free 0 then pure tt else distribute_free b free)

  unfoldable pub mint_output : BuyMainAsset → ℕ → Effect (State S L R) (SwapOutcome ℕ)
  unfolding mint_to
  mint_output b output_amount = do
    fee ← reads λ s. priced (try_into_balance (mul fx (ok s.curve.fee) (from_u128 output_amount)))
    in_assets (
        mint_to assets_env b.out_asset_id b.reserves_account_id b.to_account_id
          (wrapping_sub output_amount fee))
    pure (outcome (wrapping_sub output_amount fee) fee)

  unfoldable pub swap : BuyMainAsset → Effect (State S L R) (SwapOutcome ℕ)
  unfolding deposit_input distribute_reserves mint_output
  swap b = with_transaction do
    (free, input_amount, output_amount) ← deposit_input b
    distribute_reserves b free
    mint_output b output_amount
