-- ===== src/Xyk/PairSwap/Prepare.antt =====
-- pallets/pool-xyk/src/action_pair_swap.rs: `prepare_and_validate`, which fills in a swap action
-- and checks it. It only reads the storage, so it is a function of it; the action is returned.
use sora2_parachain.Prelude.{
  ℕ, Bool, not, ◌&&◌, ◌||◌, Option, none, some, ltb, leb, nat_eq, if◌then◌else◌,
}
use sora2_parachain.Common.Errors.{DispatchError, XykError}
use sora2_parachain.Common.Result.{ok, err, ensure, ◌>>=◌, ◌>>◌}
use sora2_parachain.Common.Fixed.{Fixnum, from_u128, add, sub, mul, div}
use sora2_parachain.Common.Primitives.{TechAccountId}
use sora2_parachain.Technical.{tech_account_id_to_account_id}
use sora2_parachain.Assets.Transfers.{free_balance}
use sora2_parachain.Xyk.Bounds.{Bounds, calculated, desired, is_dummy}
use sora2_parachain.Xyk.Bounds
use sora2_parachain.Xyk.Math.{
  failed, Outcome, balance, to_balance, calc_output_for_exact_input, calc_input_for_exact_output,
}
use sora2_parachain.Xyk.Defs.{
  PairSwapAction, State, Env, get_fee_account, is_fee_account_valid_for,
  decide_is_fee_from_destination, is_pool_account_valid_for,
}

-- `Option::unwrap`
abbrev pub unwrapped : {A : Type 0} → Option A → Outcome A
unwrapped none = err DispatchError.panicked
unwrapped (some a) = ok a

unfoldable pub is_abstract_checking : PairSwapAction → Bool
is_abstract_checking a = is_dummy a.source.amount || is_dummy a.destination.amount

abbrev pub or_client : Option ℕ → Option ℕ → Option ℕ
or_client none client = client
or_client (some r) client = some r

abbrev pub client_of : ℕ → Option ℕ → Outcome ℕ
client_of source none = ok source
client_of source (some ca) =
    if nat_eq ca source then ok ca else err (failed XykError.source_and_client_account_do_not_match)

-- The client account is the source, and the receiver is the client unless another is named.
unfoldable pub set_accounts : ℕ → PairSwapAction → Outcome PairSwapAction
set_accounts source a = do
  client ← client_of source a.client_account
  ok (record a {
    client_account = some client;
    receiver_account = or_client a.receiver_account (some client);
  })

abbrev pub set_source : Bounds → PairSwapAction → PairSwapAction
set_source b a = record a { source = record (a.source) { amount = b } }

abbrev pub set_destination : Bounds → PairSwapAction → PairSwapAction
set_destination b a = record a { destination = record (a.destination) { amount = b } }

abbrev pub zero_error : DispatchError
zero_error = failed XykError.zero_value_in_amount_parameter

abbrev pub out_of_bounds : DispatchError
out_of_bounds = failed XykError.calculated_value_is_out_of_desired_bounds

-- The amounts of the action and the recommended fee, from the side that is given. `st` and `tt'`
-- are the reserves of the source and of the destination asset.
module _ (fx : Fixnum) (from_destination : Bool) (st tt' : ℕ) where
  abbrev pub decide_output : ℕ → Bounds → PairSwapAction → Outcome (PairSwapAction × ℕ)
  decide_output sa (desired ta) a = do
    ensure (ltb 0 ta) zero_error
    (y_out, y_fee) ← calc_output_for_exact_input fx from_destination st tt' sa
    (x_in, x_fee) ← calc_input_for_exact_output fx from_destination st tt' ta
    ensure (nat_eq y_out ta && nat_eq x_in sa && nat_eq y_fee x_fee)
        (failed XykError.pool_pair_ratio_and_pair_swap_ratio_is_different)
    ok (a, y_fee)
  decide_output sa (Bounds.min ta_min) a = do
    (out, fee) ← calc_output_for_exact_input fx from_destination st tt' sa
    ensure (leb ta_min out) out_of_bounds
    ok (set_destination (calculated out) a, fee)
  decide_output sa _ a = err (failed XykError.impossible_to_decide_asset_pair_amounts)

  abbrev pub decide_input : Bounds → ℕ → PairSwapAction → Outcome (PairSwapAction × ℕ)
  decide_input (Bounds.max sa_max) ta a = do
    (x_in, fee) ← calc_input_for_exact_output fx from_destination st tt' ta
    ensure (leb x_in sa_max) out_of_bounds
    ok (set_source (calculated x_in) a, fee)
  decide_input _ ta a = err (failed XykError.impossible_to_decide_asset_pair_amounts)

  abbrev pub decide_for : Bounds → Bounds → PairSwapAction → Outcome (PairSwapAction × ℕ)
  decide_for (desired sa) bound a = ensure (ltb 0 sa) zero_error >> decide_output sa bound a
  decide_for bound (desired ta) a = ensure (ltb 0 ta) zero_error >> decide_input bound ta a
  decide_for _ _ a = err (failed XykError.impossible_to_decide_asset_pair_amounts)

  unfoldable pub decide_amounts : PairSwapAction → Outcome (PairSwapAction × ℕ)
  decide_amounts a = decide_for a.source.amount a.destination.amount a

-- The recommended fee, unless the action has a fee that is not smaller.
abbrev pub fee_for : ℕ → Option ℕ → Outcome ℕ
fee_for recommended none = ok recommended
fee_for recommended (some fee) =
    if ltb fee recommended
    then err (failed XykError.pair_swap_action_fee_is_smaller_than_recommended)
    else ok fee

-- The last check: the square of the change of the price is below 100.
unfoldable pub pool_stays_valid : Fixnum → ℕ → ℕ → ℕ → ℕ → Outcome (Unit {0})
pool_stays_valid fx st tt' source_amount destination_amount = do
  let x = add fx (from_u128 st) (from_u128 source_amount)
  let y = sub fx (from_u128 tt') (from_u128 destination_amount)
  let diff = sub fx (div fx x y) (div fx (from_u128 st) (from_u128 tt'))
  squared ← to_balance (mul fx diff diff)
  ensure (ltb squared (balance 100)) (failed XykError.pool_became_invalid_after_operation)

abbrev pub pool_has_liquidity : ℕ → ℕ → Outcome (Unit {0})
pool_has_liquidity st tt' = do
  ensure (not (nat_eq st 0 && nat_eq tt' 0)) (failed XykError.pool_is_empty)
  ensure (not (nat_eq st 0 || nat_eq tt' 0)) (failed XykError.pool_is_invalid)

module _ {S L : Type 0} (env : Env S L) where
  open env use {technical_env, fx}
  open technical_env use {assets_env}

  abbrev pub fee_side : PairSwapAction → Outcome Bool
  fee_side a = elim (a.get_fee_from_destination) [
    | none ↦ decide_is_fee_from_destination env a.source.asset a.destination.asset
    | some b ↦ ok b
  ]

  abbrev pub fee_account_for : TechAccountId → Option TechAccountId → Outcome TechAccountId
  fee_account_for pool none = get_fee_account pool
  fee_account_for pool (some fa) = is_fee_account_valid_for pool fa >> ok fa

  -- What follows the balances, for a source account that has `ss` of the source asset.
  unfoldable pub settle : ℕ → ℕ → ℕ → PairSwapAction → Outcome PairSwapAction
  unfolding decide_amounts pool_stays_valid
  settle ss st tt' a = do
    ensure (ltb 0 ss) (failed XykError.account_balance_is_invalid)
    pool_has_liquidity st tt'
    side ← fee_side a
    (a', recommended) ←
        decide_amounts fx side st tt' (record a { get_fee_from_destination = some side })
    fa ← fee_account_for a'.pool_account a'.fee_account
    source_amount ← unwrapped (Bounds.unwrap a'.source.amount)
    destination_amount ← unwrapped (Bounds.unwrap a'.destination.amount)
    fee ← fee_for recommended a'.fee
    ensure (leb source_amount ss) (failed XykError.source_balance_is_not_large_enough)
    ensure (leb destination_amount tt') (failed XykError.target_balance_is_not_large_enough)
    pool_stays_valid fx st tt' source_amount destination_amount
    ok (record a' { fee = some fee; fee_account = some fa })

  -- `prepare_and_validate(Some(source))` of an action that is not for abstract checking.
  unfoldable pub prepare_for : ℕ → PairSwapAction → State S L → Outcome PairSwapAction
  unfolding set_accounts settle tech_account_id_to_account_id is_pool_account_valid_for
  prepare_for source a s = do
    a' ← set_accounts source a
    pool ← tech_account_id_to_account_id technical_env a'.pool_account
    is_pool_account_valid_for env a'.pool_account s
    ss ← free_balance assets_env a'.source.asset source (s.technical.assets)
    st ← free_balance assets_env a'.source.asset pool (s.technical.assets)
    tt' ← free_balance assets_env a'.destination.asset pool (s.technical.assets)
    settle ss st tt' a'

  -- What follows the balances without a source account or with an amount that is `dummy`.
  abbrev pub settle_quote : ℕ → ℕ → PairSwapAction → Outcome PairSwapAction
  settle_quote st tt' a = do
    side ← fee_side a
    (a', recommended) ←
        decide_amounts fx side st tt' (record a { get_fee_from_destination = some side })
    fa ← fee_account_for a'.pool_account a'.fee_account
    source_amount ← unwrapped (Bounds.unwrap a'.source.amount)
    destination_amount ← unwrapped (Bounds.unwrap a'.destination.amount)
    fee ← fee_for recommended a'.fee
    ok (record a' { fee = some fee; fee_account = some fa })

  abbrev pub settle_dummy : PairSwapAction → Outcome PairSwapAction
  settle_dummy a = do
    side ← fee_side a
    fa ← fee_account_for a.pool_account a.fee_account
    ok (record a { get_fee_from_destination = some side; fee_account = some fa })

  -- `prepare_and_validate` of an abstract checking.
  unfoldable pub prepare_abstract : PairSwapAction → State S L → Outcome PairSwapAction
  unfolding tech_account_id_to_account_id is_pool_account_valid_for decide_amounts
  prepare_abstract a s = do
    pool ← tech_account_id_to_account_id technical_env a.pool_account
    is_pool_account_valid_for env a.pool_account s
    st ← free_balance assets_env a.source.asset pool (s.technical.assets)
    tt' ← free_balance assets_env a.destination.asset pool (s.technical.assets)
    pool_has_liquidity st tt'
    if is_abstract_checking a then settle_dummy a else settle_quote st tt' a

  unfoldable pub prepare_and_validate :
      Option ℕ → PairSwapAction → State S L → Outcome PairSwapAction
  unfolding is_abstract_checking prepare_for prepare_abstract
  prepare_and_validate none a s = prepare_abstract a s
  prepare_and_validate (some source) a s =
      if is_abstract_checking a then prepare_abstract a s else prepare_for source a s
