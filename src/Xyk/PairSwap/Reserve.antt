-- ===== src/Xyk/PairSwap/Reserve.antt =====
-- pallets/pool-xyk/src/action_pair_swap.rs: `reserve`, which moves the amounts of a swap, and the
-- swap rules of the action. The subtractions wrap around at 128 bits, as they do in the release
-- build.
use sora2_parachain.Prelude.{ℕ, Bool, true, false, Option, none, some, nat_eq}
use sora2_parachain.Common.Errors.{DispatchError, XykError}
use sora2_parachain.Common.Primitives.{TechAccountId}
use sora2_parachain.Common.Effects.{
  Effect, ◌>>=◌, ◌>>◌, raise, reads, modify, require, on_part, with_transaction,
}
use sora2_parachain.Assets.Transfers.{free_balance}
use sora2_parachain.Technical
use sora2_parachain.Technical.{tech_account_id_to_account_id, transfer_in, transfer_out}
use sora2_parachain.Technical.Swaps.{SwapAction}
use sora2_parachain.Xyk.Bounds
use sora2_parachain.Xyk.Math.{failed, wrapping_sub}
use sora2_parachain.Xyk.Defs.{PairSwapAction, State, Env, update_reserves}
use sora2_parachain.Xyk.PairSwap.Prepare.{is_abstract_checking, prepare_and_validate, unwrapped}

abbrev pub is_client : ℕ → Option ℕ → Bool
is_client source none = false
is_client source (some ca) = nat_eq source ca

module _ {S L : Type 0} (env : Env S L) where
  open env use {technical_env}
  open technical_env use {assets_env}

  abbrev pub in_technical : {A : Type 0} → Effect (Technical.State S L) A → Effect (State S L) A
  in_technical = on_part (λ s. s.technical) (λ s t. record s { technical = t })

  abbrev unwrap_or_panic : {A : Type 0} → Option A → Effect (State S L) A
  unwrap_or_panic o = reads λ s. unwrapped o

  -- The transfers of a swap: the pool takes `amount_in` and pays `amount_out`, and the fee is kept
  -- back on one of the two sides.
  unfoldable pub move_amounts :
      Bool
      → ℕ
      → ℕ
      → PairSwapAction
      → TechAccountId
      → ℕ
      → ℕ
      → ℕ
      → ℕ
      → Effect (Technical.State S L) (Unit {0})
  unfolding transfer_in transfer_out
  move_amounts true source receiver a fee_account fee_repr amount_in amount_out fee = do
    transfer_in technical_env a.source.asset source a.pool_account amount_in
    transfer_out technical_env a.destination.asset a.pool_account fee_repr fee
    transfer_out technical_env a.destination.asset a.pool_account receiver
        (wrapping_sub amount_out fee)
  move_amounts false source receiver a fee_account fee_repr amount_in amount_out fee = do
    transfer_in technical_env a.source.asset source a.pool_account (wrapping_sub amount_in fee)
    transfer_in technical_env a.source.asset source fee_account fee
    transfer_out technical_env a.destination.asset a.pool_account receiver amount_out

  -- The reserves of the pool are recorded again from its balances.
  unfoldable pub record_reserves : PairSwapAction → Effect (State S L) (Unit {0})
  unfolding tech_account_id_to_account_id update_reserves
  record_reserves a = do
    pool ← reads λ s. tech_account_id_to_account_id technical_env a.pool_account
    balance_a ← reads λ s. free_balance assets_env a.source.asset pool (s.technical.assets)
    balance_b ← reads λ s. free_balance assets_env a.destination.asset pool (s.technical.assets)
    modify (update_reserves env a.source.asset a.destination.asset (balance_a, balance_b))

  unfoldable pub reserve : ℕ → PairSwapAction → Effect (State S L) (Unit {0})
  unfolding move_amounts record_reserves
  reserve source a = with_transaction do
    require (is_client source a.client_account)
        (failed XykError.source_and_client_account_do_not_match)
    fee_account ← unwrap_or_panic a.fee_account
    fee_repr ← reads λ s. tech_account_id_to_account_id technical_env fee_account
    side ← unwrap_or_panic a.get_fee_from_destination
    amount_in ← unwrap_or_panic (Bounds.unwrap a.source.amount)
    amount_out ← unwrap_or_panic (Bounds.unwrap a.destination.amount)
    fee ← unwrap_or_panic a.fee
    receiver ← unwrap_or_panic a.receiver_account
    in_technical (move_amounts side source receiver a fee_account fee_repr amount_in amount_out fee)
    record_reserves a

  -- `SwapRulesValidation` and `SwapAction` of the action. `cancel` is `unimplemented!`.
  unfoldable pub pair_swap_rules : SwapAction (State S L) PairSwapAction
  unfolding is_abstract_checking prepare_and_validate reserve
  pair_swap_rules = record {
    is_abstract_checking = is_abstract_checking;
    prepare_and_validate = λ source a. reads (prepare_and_validate env source a);
    instant_auto_claim_used = λ a. true;
    triggered_auto_claim_used = λ a. false;
    is_able_to_claim = λ a. true;
    reserve = reserve;
    claim = λ source a s. true;
    cancel = λ source a. raise DispatchError.panicked;
  }
