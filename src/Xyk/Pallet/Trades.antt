-- ===== src/Xyk/Pallet/Trades.antt =====
-- pallets/pool-xyk/src/lib.rs: deposits, withdrawals, exchanges and quotes, and their extrinsics.
use sora2_parachain.Prelude.{
  ℕ, eq_ℕ, eq_pair, Bool, ◌&&◌, none, some, List, [], ◌∷◌, leb, if◌then◌else◌,
}
use sora2_parachain.Common.Errors.{XykError}
use sora2_parachain.Common.Result.{Result, ok, err, is_ok}
use sora2_parachain.Common.Result
use sora2_parachain.Common.Storage.{get, unwrap_or}
use sora2_parachain.Common.Effects.{Effect, ◌>>=◌, ◌>>◌, pure, reads, require}
use sora2_parachain.Common.Primitives.{TechAccountId, generic, Origin}
use sora2_parachain.Common.SwapAmounts.{
  SwapOutcome, SwapAmount, with_desired_input, with_desired_output,
}
use sora2_parachain.Assets.Operations.{in_currency}
use sora2_parachain.Technical.{tech_account_id_to_account_id}
use sora2_parachain.Technical.Swaps.{perform_create_swap, perform_create_swap_unchecked}
use sora2_parachain.Xyk.Bounds.{Bounds, desired}
use sora2_parachain.Xyk.Bounds
use sora2_parachain.Xyk.Math.{failed, Outcome, balance, wrapping_sub}
use sora2_parachain.Xyk.Defs.{
  PairSwapAction, WithdrawLiquidityAction, State, Env, in_assets,
  tech_account_from_dex_and_asset_pair, get_marking_asset, get_bounds_from_swap_amount,
}
use sora2_parachain.Xyk.PairSwap
use sora2_parachain.Xyk.PairSwap.Prepare.{unwrapped}
use sora2_parachain.Xyk.Liquidity.Deposit.{ranged}
use sora2_parachain.Xyk.Liquidity.Actions.{
  pair_swap, deposit_liquidity, withdraw_liquidity, poly_swap_rules,
}
use sora2_parachain.Common.FrameSystem.{ensure_signed}

-- `with_transaction` with the outcome `Rollback`.
abbrev pub rolled_back : {S A : Type 0} → Effect S A → Effect S A
rolled_back m s = ((m s).0, s)

abbrev pub pool_xyk : List ℕ
pool_xyk = b'P' ∷ b'o' ∷ b'o' ∷ b'l' ∷ b'X' ∷ b'Y' ∷ b'K' ∷ []

abbrev pub can_exchange_operation : List ℕ
can_exchange_operation =
    b'C' ∷ b'a' ∷ b'n' ∷ b'E' ∷ b'x' ∷ b'c' ∷ b'h' ∷ b'a' ∷ b'n' ∷ b'g' ∷ b'e' ∷ b'O' ∷ b'p' ∷ b'e'
    ∷ b'r' ∷ b'a' ∷ b't' ∷ b'i' ∷ b'o' ∷ b'n' ∷ []

abbrev pub quote_operation : List ℕ
quote_operation =
    b'Q' ∷ b'u' ∷ b'o' ∷ b't' ∷ b'e' ∷ b'O' ∷ b'p' ∷ b'e' ∷ b'r' ∷ b'a' ∷ b't' ∷ b'i' ∷ b'o' ∷ b'n'
    ∷ []

-- What `exchange` returns of a prepared swap: less the fee, if the input was given and the fee is
-- taken from the output. The difference of `u128` values wraps around.
unfoldable pub outcome_of : SwapAmount ℕ → PairSwapAction → Outcome (SwapOutcome ℕ)
outcome_of (with_desired_input sa m) a = Result.◌>>=◌ (unwrapped a.fee) λ fee.
    Result.◌>>=◌ (unwrapped (Bounds.unwrap a.destination.amount)) λ amount.
      Result.◌>>=◌ (unwrapped a.get_fee_from_destination)
        λ side. ok (record { amount = if side then wrapping_sub amount fee else amount; fee = fee })
outcome_of (with_desired_output ta m) a = Result.◌>>=◌ (unwrapped a.fee) λ fee.
    Result.◌>>=◌ (unwrapped (Bounds.unwrap a.source.amount)) λ amount.
      Result.◌>>=◌ (unwrapped a.get_fee_from_destination)
        λ side. ok (record { amount = amount; fee = fee })

abbrev pub exchange_action : ℕ → TechAccountId → ℕ → ℕ → Bounds × Bounds → PairSwapAction
exchange_action receiver tech input output (source_amount, destination_amount) = record {
  client_account = none;
  receiver_account = some receiver;
  pool_account = tech;
  source = record { asset = input; amount = source_amount };
  destination = record { asset = output; amount = destination_amount };
  fee = none;
  fee_account = none;
  get_fee_from_destination = none;
}

abbrev pub withdrawal : TechAccountId → ℕ → ℕ → ℕ → ℕ → ℕ → ℕ → WithdrawLiquidityAction
withdrawal tech marker asset_a asset_b marker_desired a_min b_min = record {
  client_account = none;
  receiver_account_a = none;
  receiver_account_b = none;
  pool_account = tech;
  source = record { asset = marker; amount = desired marker_desired };
  destination = record {
    first = record { asset = asset_a; amount = Bounds.min a_min };
    second = record { asset = asset_b; amount = Bounds.min b_min };
  };
}

-- `swap_success` deposits the event of `technical`.
module _ {S L : Type 0} (env : Env S L) (swap_success : ℕ → State S L → State S L) where
  open env use {technical_env, base_asset, sorted_first, from_tech_asset, hash_dex}
  open technical_env use {assets_env}
  open assets_env use {frame, money, hash}

  unfoldable pub deposit_liquidity_unchecked :
      ℕ → ℕ → ℕ → ℕ → ℕ → ℕ → ℕ → ℕ → Effect (State S L) (Unit {0})
  unfolding tech_account_from_dex_and_asset_pair get_marking_asset perform_create_swap
      poly_swap_rules
  deposit_liquidity_unchecked source dex_id asset_a asset_b a_desired b_desired a_min b_min = do
    (pair, tech) ← reads (tech_account_from_dex_and_asset_pair env dex_id asset_a asset_b)
    require (leb a_min a_desired && leb b_min b_desired)
        (failed XykError.invalid_minimum_bound_value_of_balance)
    mark_asset ← get_marking_asset env tech
    perform_create_swap (poly_swap_rules env) swap_success source (
        deposit_liquidity
          (ranged none none tech mark_asset asset_a asset_b a_desired b_desired a_min b_min))

  unfoldable pub withdraw_liquidity_unchecked :
      ℕ → ℕ → ℕ → ℕ → ℕ → ℕ → ℕ → Effect (State S L) (Unit {0})
  unfolding tech_account_from_dex_and_asset_pair get_marking_asset perform_create_swap
      poly_swap_rules
  withdraw_liquidity_unchecked source dex_id asset_a asset_b marker_desired a_min b_min = do
    (pair, tech) ← reads (tech_account_from_dex_and_asset_pair env dex_id asset_a asset_b)
    mark_asset ← get_marking_asset env tech
    perform_create_swap (poly_swap_rules env) swap_success source
        (withdraw_liquidity (withdrawal tech mark_asset asset_a asset_b marker_desired a_min b_min))

  -- `LiquiditySource`
  unfoldable pub exchange : ℕ → ℕ → ℕ → ℕ → ℕ → SwapAmount ℕ → Effect (State S L) (SwapOutcome ℕ)
  unfolding tech_account_from_dex_and_asset_pair get_bounds_from_swap_amount outcome_of
      perform_create_swap_unchecked poly_swap_rules
  exchange sender receiver dex_id input output swap_amount = do
    (pair, tech) ← reads (tech_account_from_dex_and_asset_pair env dex_id input output)
    bounds ← reads λ s. get_bounds_from_swap_amount swap_amount
    a ← reads (
        PairSwap.Prepare.prepare_and_validate env (some sender)
          (exchange_action receiver tech input output bounds))
    outcome ← reads λ s. outcome_of swap_amount a
    perform_create_swap_unchecked (poly_swap_rules env) swap_success sender (pair_swap a)
    pure outcome

  -- The trial of an exchange by an account that is given 999,999,999 tokens first.
  abbrev pub trial : List ℕ → ℕ → ℕ → ℕ → SwapAmount ℕ → Effect (State S L) (SwapOutcome ℕ)
  trial operation dex_id input output swap_amount = do
    repr ← reads λ s. tech_account_id_to_account_id technical_env (generic pool_xyk operation)
    in_assets env (in_currency assets_env (money.deposit input repr (balance 999_999_999)))
    exchange repr repr dex_id input output swap_amount

  unfoldable pub quote : ℕ → ℕ → ℕ → SwapAmount ℕ → Effect (State S L) (SwapOutcome ℕ)
  unfolding exchange tech_account_id_to_account_id
  quote dex_id input output swap_amount =
      rolled_back (trial quote_operation dex_id input output swap_amount)

  unfoldable pub can_exchange : ℕ → ℕ → ℕ → State S L → Bool
  unfolding exchange tech_account_id_to_account_id
  can_exchange dex_id input output s =
      is_ok
        (rolled_back
          (trial can_exchange_operation dex_id input output (with_desired_input 1_000_000_000 0))
          s).0

  -- `GetPoolReserves`
  unfoldable pub reserves : ℕ → ℕ → State S L → ℕ × ℕ
  reserves base_asset_id other_asset s =
      unwrap_or (get s.reserves (base_asset_id, other_asset)) (0, 0)

  -- The other extrinsics.
  unfoldable pub swap_pair : Origin → ℕ → ℕ → ℕ → ℕ → SwapAmount ℕ → Effect (State S L) (Unit {0})
  unfolding exchange
  swap_pair origin receiver dex_id input output swap_amount = do
    source ← ensure_signed origin
    outcome ← exchange source receiver dex_id input output swap_amount
    pure tt

  unfoldable pub deposit_liquidity_call :
      Origin → ℕ → ℕ → ℕ → ℕ → ℕ → ℕ → ℕ → Effect (State S L) (Unit {0})
  unfolding deposit_liquidity_unchecked
  deposit_liquidity_call origin dex_id asset_a asset_b a_desired b_desired a_min b_min = do
    source ← ensure_signed origin
    deposit_liquidity_unchecked source dex_id asset_a asset_b a_desired b_desired a_min b_min

  unfoldable pub withdraw_liquidity_call :
      Origin → ℕ → ℕ → ℕ → ℕ → ℕ → ℕ → Effect (State S L) (Unit {0})
  unfolding withdraw_liquidity_unchecked
  withdraw_liquidity_call origin dex_id asset_a asset_b marker_desired a_min b_min = do
    source ← ensure_signed origin
    withdraw_liquidity_unchecked source dex_id asset_a asset_b marker_desired a_min b_min
