-- ===== src/Xyk/Liquidity/Actions.antt =====
-- pallets/pool-xyk/src/action_deposit_liquidity.rs, action_withdraw_liquidity.rs and
-- action_poly_swap.rs: `prepare_and_validate` and `reserve` of the actions, and their swap rules.
-- Finding out the marker asset writes the record of its id into the storage.
use sora2_parachain.Prelude.{
  ℕ, Bool, true, false, not, ◌||◌, ltb, Option, none, some, nat_eq, if◌then◌else◌,
}
use sora2_parachain.Common.Errors.{DispatchError, XykError}
use sora2_parachain.Common.Primitives.{TechAccountId}
use sora2_parachain.Common.Effects.{Effect, ◌>>=◌, ◌>>◌, pure, raise, reads, modify, require}
use sora2_parachain.Assets.Transfers.{free_balance, total_issuance, mint_to, burn_from}
use sora2_parachain.Technical.{tech_account_id_to_account_id, transfer_in, transfer_out}
use sora2_parachain.Technical.Swaps.{SwapAction}
use sora2_parachain.Xyk.Bounds
use sora2_parachain.Xyk.Math.{failed, Outcome}
use sora2_parachain.Xyk.Defs.{
  PairSwapAction, DepositLiquidityAction, WithdrawLiquidityAction, ResourcePair, State, Env,
  in_assets, is_pool_account_valid_for, get_marking_asset, update_reserves,
}
use sora2_parachain.Xyk.PairSwap
use sora2_parachain.Xyk.PairSwap.Prepare.{unwrapped}
use sora2_parachain.Xyk.PairSwap.Reserve.{is_client, in_technical}
use sora2_parachain.Xyk.Liquidity.Deposit
use sora2_parachain.Xyk.Liquidity.Withdraw

-- `PolySwapAction`
pub data PolySwapAction : Type 0 where
  pair_swap : PairSwapAction → PolySwapAction
  deposit_liquidity : DepositLiquidityAction → PolySwapAction
  withdraw_liquidity : WithdrawLiquidityAction → PolySwapAction

module _ {S L : Type 0} (env : Env S L) where
  open env use {technical_env, fx, from_tech_asset}
  open technical_env use {assets_env}

  -- The checks of the pool's account and of the marker asset; the account that represents the pool.
  unfoldable pub checked_pool : TechAccountId → ℕ → Effect (State S L) ℕ
  unfolding tech_account_id_to_account_id is_pool_account_valid_for get_marking_asset
  checked_pool tech marker = do
    pool ← reads λ s. tech_account_id_to_account_id technical_env tech
    reads (is_pool_account_valid_for env tech)
    mark_asset ← get_marking_asset env tech
    require (nat_eq marker mark_asset) (failed XykError.invalid_asset_for_liquidity_marking)
    pure pool

  abbrev pub free : ℕ → ℕ → Effect (State S L) ℕ
  free asset who = reads λ s. free_balance assets_env asset who (s.technical.assets)

  abbrev pub issued : ℕ → State S L → Outcome ℕ
  issued marker s = total_issuance assets_env (from_tech_asset marker) (s.technical.assets)

  -- What follows the check of the pool's account `pool`.
  unfoldable pub deposit_into :
      ℕ → ℕ → DepositLiquidityAction → Effect (State S L) DepositLiquidityAction
  unfolding Deposit.settle
  deposit_into source pool a = do
    bs ← free a.source.first.asset source
    ts ← free a.source.second.asset source
    require (not (nat_eq bs 0 || nat_eq ts 0)) (failed XykError.account_balance_is_invalid)
    bp ← free a.source.first.asset pool
    tp ← free a.source.second.asset pool
    reads λ s. Deposit.settle fx bp tp bs ts (issued a.destination.asset s) a

  abbrev pub prepare_deposit_for :
      ℕ → DepositLiquidityAction → Effect (State S L) DepositLiquidityAction
  prepare_deposit_for source a = do
    a' ← reads λ s. Deposit.set_accounts source a
    pool ← checked_pool a'.pool_account a'.destination.asset
    deposit_into source pool a'

  abbrev pub prepare_deposit_abstract :
      DepositLiquidityAction → Effect (State S L) DepositLiquidityAction
  prepare_deposit_abstract a = do
    pool ← checked_pool a.pool_account a.destination.asset
    bp ← free a.source.first.asset pool
    tp ← free a.source.second.asset pool
    reads λ s. Deposit.settle_abstract fx bp tp a

  unfoldable pub prepare_deposit :
      Option ℕ → DepositLiquidityAction → Effect (State S L) DepositLiquidityAction
  unfolding Deposit.is_abstract_checking Deposit.set_accounts deposit_into Deposit.settle_abstract
      checked_pool
  prepare_deposit none a = prepare_deposit_abstract a
  prepare_deposit (some source) a =
      if Deposit.is_abstract_checking a
      then prepare_deposit_abstract a
      else prepare_deposit_for source a

  -- What follows the check of the pool's account `pool`.
  unfoldable pub withdraw_from :
      ℕ → ℕ → WithdrawLiquidityAction → Effect (State S L) WithdrawLiquidityAction
  unfolding Withdraw.settle
  withdraw_from source pool a = do
    ks ← free (from_tech_asset a.source.asset) source
    require (ltb 0 ks) (failed XykError.account_balance_is_invalid)
    bp ← free a.destination.first.asset pool
    tp ← free a.destination.second.asset pool
    reads λ s. Withdraw.settle fx bp tp ks (issued a.source.asset s) a

  -- Without a source account the source panics.
  unfoldable pub prepare_withdraw :
      Option ℕ → WithdrawLiquidityAction → Effect (State S L) WithdrawLiquidityAction
  unfolding Withdraw.set_accounts withdraw_from checked_pool
  prepare_withdraw none a = raise DispatchError.panicked
  prepare_withdraw (some source) a = do
    a' ← reads λ s. Withdraw.set_accounts source a
    pool ← checked_pool a'.pool_account a'.source.asset
    withdraw_from source pool a'

  abbrev pub unwrap_or_panic : {A : Type 0} → Option A → Effect (State S L) A
  unwrap_or_panic o = reads λ s. unwrapped o

  abbrev pub amount_of : Bounds.Bounds → Effect (State S L) ℕ
  amount_of b = unwrap_or_panic (Bounds.unwrap b)

  -- The reserves of the pool are recorded again from its balances.
  unfoldable pub record_pair : TechAccountId → ResourcePair → Effect (State S L) (Unit {0})
  unfolding tech_account_id_to_account_id update_reserves
  record_pair tech pair = do
    pool ← reads λ s. tech_account_id_to_account_id technical_env tech
    balance_a ← free pair.first.asset pool
    balance_b ← free pair.second.asset pool
    modify (update_reserves env pair.first.asset pair.second.asset (balance_a, balance_b))

  abbrev pub require_client : ℕ → Option ℕ → Effect (State S L) (Unit {0})
  require_client source client =
      require (is_client source client) (failed XykError.source_and_client_account_do_not_match)

  unfoldable pub reserve_deposit : ℕ → DepositLiquidityAction → Effect (State S L) (Unit {0})
  unfolding tech_account_id_to_account_id transfer_in mint_to record_pair
  reserve_deposit source a = do
    require_client source a.client_account
    pool ← reads λ s. tech_account_id_to_account_id technical_env a.pool_account
    first ← amount_of a.source.first.amount
    in_technical env (transfer_in technical_env a.source.first.asset source a.pool_account first)
    second ← amount_of a.source.second.amount
    in_technical env (transfer_in technical_env a.source.second.asset source a.pool_account second)
    receiver ← unwrap_or_panic a.receiver_account
    amount ← amount_of a.destination.amount
    in_assets env (mint_to assets_env (from_tech_asset a.destination.asset) pool receiver amount)
    record_pair a.pool_account a.source

  unfoldable pub reserve_withdraw : ℕ → WithdrawLiquidityAction → Effect (State S L) (Unit {0})
  unfolding tech_account_id_to_account_id transfer_out burn_from record_pair
  reserve_withdraw source a = do
    require_client source a.client_account
    pool ← reads λ s. tech_account_id_to_account_id technical_env a.pool_account
    receiver_a ← unwrap_or_panic a.receiver_account_a
    first ← amount_of a.destination.first.amount
    in_technical env
        (transfer_out technical_env a.destination.first.asset a.pool_account receiver_a first)
    receiver_b ← unwrap_or_panic a.receiver_account_b
    second ← amount_of a.destination.second.amount
    in_technical env
        (transfer_out technical_env a.destination.second.asset a.pool_account receiver_b second)
    amount ← amount_of a.source.amount
    in_assets env (burn_from assets_env (from_tech_asset a.source.asset) pool source amount)
    record_pair a.pool_account a.destination

  -- The rules of each kind of action, under those of `PolySwapAction`.
  abbrev pub is_abstract : PolySwapAction → Bool
  is_abstract (pair_swap a) = PairSwap.Prepare.is_abstract_checking a
  is_abstract (deposit_liquidity a) = Deposit.is_abstract_checking a
  is_abstract (withdraw_liquidity a) = Withdraw.is_abstract_checking a

  abbrev pub prepare : Option ℕ → PolySwapAction → Effect (State S L) PolySwapAction
  prepare source (pair_swap a) =
      reads (PairSwap.Prepare.prepare_and_validate env source a) >>= λ a'. pure (pair_swap a')
  prepare source (deposit_liquidity a) =
      prepare_deposit source a >>= λ a'. pure (deposit_liquidity a')
  prepare source (withdraw_liquidity a) =
      prepare_withdraw source a >>= λ a'. pure (withdraw_liquidity a')

  abbrev pub reserve : ℕ → PolySwapAction → Effect (State S L) (Unit {0})
  reserve source (pair_swap a) = PairSwap.Reserve.reserve env source a
  reserve source (deposit_liquidity a) = reserve_deposit source a
  reserve source (withdraw_liquidity a) = reserve_withdraw source a

  -- `cancel` is `unimplemented!`.
  unfoldable pub poly_swap_rules : SwapAction (State S L) PolySwapAction
  unfolding PairSwap.Prepare.is_abstract_checking Deposit.is_abstract_checking
      Withdraw.is_abstract_checking PairSwap.Prepare.prepare_and_validate prepare_deposit
      prepare_withdraw PairSwap.Reserve.reserve reserve_deposit reserve_withdraw
  poly_swap_rules = record {
    is_abstract_checking = is_abstract;
    prepare_and_validate = prepare;
    instant_auto_claim_used = λ a. true;
    triggered_auto_claim_used = λ a. false;
    is_able_to_claim = λ a. true;
    reserve = reserve;
    claim = λ source a s. true;
    cancel = λ source a. raise DispatchError.panicked;
  }
