-- ===== src/MockSource.antt =====
-- The pallet `mock-liquidity-source` (pallets/mock-liquidity-source/src/lib.rs): a source that prices
-- trades by a constant product of stored reserves, and moves nothing.
pub mod Calls
pub mod Product
mod Tests
use sora2_parachain.Prelude.{
  ℕ, Bool, ◌&&◌, ◌+◌, Option, some, none, List, [], ◌∷◌, nat_eq, ltb, if◌then◌else◌, ℤ, pos, ltb_ℤ,
  eq_ℕ, eq_pair,
}
use sora2_parachain.Common.Errors.{DispatchError, MockSourceError}
use sora2_parachain.Common.Result.{Result, ok, err, ensure, ◌>>=◌, ◌>>◌}
use sora2_parachain.Common.Storage.{StorageMap, get, insert, contains_key, unwrap_or}
use sora2_parachain.Common.Effects.{Effect, reads, modify, on_part}
use sora2_parachain.Common.Effects
use sora2_parachain.Common.FrameSystem.{ensure_signed}
use sora2_parachain.Common.Primitives.{TechAccountId, Origin, ManagementMode, public_mode}
use sora2_parachain.Common.Fixed.{
  Fixnum, FixedWrapper, Checked, one, max_bits, try_into_balance, add, sub, mul, div,
}
use sora2_parachain.Common.SwapAmounts.{
  SwapAmount, with_desired_input, with_desired_output, SwapOutcome, outcome, try_to_fixed,
  outcome_to_balance, bits_to_balance,
}
use sora2_parachain.Common.Sources.{LiquiditySource, GetPoolReserves}
use sora2_parachain.Permissions.Defs.{mint_id, burn_id, transfer_id}
use sora2_parachain.Technical
use sora2_parachain.Technical.{tech_account_id_to_account_id}
use sora2_parachain.Technical.Assign.{assign_permissions}

abbrev pub Fallible : Type 0 → Type 0
Fallible A = Result DispatchError A

abbrev pub failed : MockSourceError → DispatchError
failed = DispatchError.mock_source

-- `map_err` of an arithmetic error, and of a failed conversion.
abbrev pub or_fail : {A : Type 0} → MockSourceError → Checked A → Fallible A
or_fail e (ok a) = ok a
or_fail e (err x) = err (failed e)

abbrev pub converted : {A : Type 0} → Option A → Fallible A
converted (some a) = ok a
converted none = err (failed MockSourceError.calculation_error)

-- The storage of the pallet with that of `technical`. Reserves are those of the base asset and of
-- the target, as the bits of a `Fixed`.
pub record State (S L : Type 0) : Type 0 where
  pub technical : Technical.State S L
  pub reserves : StorageMap (ℕ × ℕ) (ℤ × ℤ)
  pub reserves_acc : TechAccountId

-- `Config`
pub record Env (S L : Type 0) : Type 0 where
  pub technical_env : Technical.Env S L
  pub fx : Fixnum
  pub fee : ℤ
  pub base_asset : ℕ
  pub ensure_can_manage : ℕ → Origin → ManagementMode → State S L → Fallible (Option ℕ)
  pub ensure_trading_pair_exists : ℕ → ℕ → ℕ → State S L → Fallible (Unit {0})

abbrev pub above_zero : ℤ → Bool
above_zero = ltb_ℤ (pos 0)

module _ (fx : Fixnum) (fee_fraction : ℤ) where
  -- The tests that all four functions begin with.
  abbrev pub ensure_amounts : MockSourceError → ℤ → ℤ → ℤ → Fallible (Unit {0})
  ensure_amounts e amount base target =
      ensure (above_zero amount) (failed e)
      >> ensure (above_zero base && above_zero target)
          (failed MockSourceError.insufficient_liquidity)

  unfoldable pub get_base_amount_out : ℤ → ℤ → ℤ → Fallible (SwapOutcome ℤ)
  get_base_amount_out target_in base target = do
    ensure_amounts MockSourceError.insufficient_input_amount target_in base target
    without_fee ←
        or_fail MockSourceError.insufficient_liquidity
          (div fx (mul fx (ok target_in) (ok base)) (add fx (ok target) (ok target_in)))
    let fee_amount = mul fx (ok without_fee) (ok fee_fraction)
    amount ← or_fail MockSourceError.calculation_error (sub fx (ok without_fee) fee_amount)
    fee ← or_fail MockSourceError.calculation_error fee_amount
    ok (outcome amount fee)

  unfoldable pub get_target_amount_out : ℤ → ℤ → ℤ → Fallible (SwapOutcome ℤ)
  get_target_amount_out base_in base target = do
    ensure_amounts MockSourceError.insufficient_input_amount base_in base target
    let fee_amount = mul fx (ok base_in) (ok fee_fraction)
    let with_fee = sub fx (ok base_in) fee_amount
    amount ←
        or_fail MockSourceError.insufficient_liquidity
          (div fx (mul fx (ok target) with_fee) (add fx (ok base) with_fee))
    fee ← or_fail MockSourceError.calculation_error fee_amount
    ok (outcome amount fee)

  -- `Fixed::from_bits(1)` more, if the amount would not buy what is desired.
  abbrev pub raised : Bool → FixedWrapper → FixedWrapper
  raised short amount = if short then add fx amount (ok (pos 1)) else amount

  unfoldable pub get_base_amount_in : ℤ → ℤ → ℤ → Fallible (SwapOutcome ℤ)
  unfolding get_target_amount_out
  get_base_amount_in target_out base target = do
    ensure_amounts MockSourceError.insufficient_output_amount target_out base target
    without_fee ←
        or_fail MockSourceError.insufficient_liquidity
          (div fx (mul fx (ok base) (ok target_out)) (sub fx (ok target) (ok target_out)))
    let with_fee = div fx (ok without_fee) (sub fx (ok (pos one)) (ok fee_fraction))
    amount_in ← or_fail MockSourceError.calculation_error with_fee
    actual ← get_target_amount_out amount_in base target
    amount ←
        or_fail MockSourceError.calculation_error (raised (ltb_ℤ actual.amount target_out) with_fee)
    fee ← or_fail MockSourceError.calculation_error (sub fx with_fee (ok without_fee))
    ok (outcome amount fee)

  unfoldable pub get_target_amount_in : ℤ → ℤ → ℤ → Fallible (SwapOutcome ℤ)
  unfolding get_base_amount_out
  get_target_amount_in base_out base target = do
    ensure_amounts MockSourceError.insufficient_output_amount base_out base target
    let with_fee = div fx (ok base_out) (sub fx (ok (pos one)) (ok fee_fraction))
    target_in ←
        or_fail MockSourceError.insufficient_liquidity
          (div fx (mul fx (ok target) with_fee) (sub fx (ok base) with_fee))
    actual ← get_base_amount_out target_in base target
    amount ←
        or_fail MockSourceError.calculation_error
          (raised (ltb_ℤ actual.amount base_out) (ok target_in))
    fee ← or_fail MockSourceError.calculation_error (sub fx with_fee (ok base_out))
    ok (outcome amount fee)

  -- The two outcomes of a trade by way of the base asset: the amount of the last, and both fees.
  abbrev pub both_fees : ℤ → ℤ → ℤ → Fallible (SwapOutcome ℕ)
  both_fees last fee_1 fee_2 = do
    amount ← converted (bits_to_balance last)
    fee ←
        or_fail MockSourceError.calculation_error (try_into_balance (add fx (ok fee_1) (ok fee_2)))
    ok (outcome amount fee)

  abbrev pub to_balances : Fallible (SwapOutcome ℤ) → Fallible (SwapOutcome ℕ)
  to_balances r = r >>= λ o. converted (outcome_to_balance o)

  -- The quotes of the base asset for a target, of a target for the base asset, and of a target for
  -- another.
  abbrev pub quote_base_input : SwapAmount ℤ → ℤ × ℤ → Fallible (SwapOutcome ℕ)
  quote_base_input (with_desired_input a l) (base, target) =
      to_balances (get_target_amount_out a base target)
  quote_base_input (with_desired_output a l) (base, target) =
      to_balances (get_base_amount_in a base target)

  abbrev pub quote_base_output : SwapAmount ℤ → ℤ × ℤ → Fallible (SwapOutcome ℕ)
  quote_base_output (with_desired_input a l) (base, target) =
      to_balances (get_base_amount_out a base target)
  quote_base_output (with_desired_output a l) (base, target) =
      to_balances (get_target_amount_in a base target)

  abbrev pub quote_targets : SwapAmount ℤ → ℤ × ℤ → ℤ × ℤ → Fallible (SwapOutcome ℕ)
  quote_targets (with_desired_input a l) (base_a, target_a) (base_b, target_b) = do
    outcome_a ← get_base_amount_out a base_a target_a
    outcome_b ← get_target_amount_out outcome_a.amount base_b target_b
    both_fees outcome_b.amount outcome_a.fee outcome_b.fee
  quote_targets (with_desired_output a l) (base_a, target_a) (base_b, target_b) = do
    outcome_b ← get_base_amount_in a base_b target_b
    outcome_a ← get_target_amount_in outcome_b.amount base_a target_a
    both_fees outcome_a.amount outcome_b.fee outcome_a.fee

-- A maximal input is at most `Balance::MAX / 2`, which is `i128::MAX`.
abbrev pub limited : SwapAmount ℕ → SwapAmount ℕ
limited (with_desired_input a m) = with_desired_input a m
limited (with_desired_output a m) = with_desired_output a (if ltb max_bits m then max_bits else m)

module _ {S L : Type 0} (env : Env S L) where
  open env use {technical_env, fx, base_asset}
  open technical_env use {assets_env}

  -- `Reserves::<T>::get`
  abbrev pub reserves_of : State S L → ℕ → ℕ → ℤ × ℤ
  reserves_of s dex asset = unwrap_or (get s.reserves (dex, asset)) (pos 0, pos 0)

  abbrev pub set_reserves : ℕ → ℕ → ℤ × ℤ → State S L → State S L
  set_reserves dex asset pair s = record s { reserves = insert s.reserves (dex, asset) pair }

  unfoldable pub initialize_reserves : List (ℕ × ℕ × ℤ × ℤ) → State S L → State S L
  initialize_reserves [] s = s
  initialize_reserves ((dex, asset, base, target) ∷ rest) s =
      initialize_reserves rest (set_reserves dex asset (base, target) s)

  unfoldable pub can_exchange : ℕ → ℕ → ℕ → State S L → Bool
  can_exchange dex input output s =
      if nat_eq input base_asset
      then contains_key s.reserves (dex, output)
      else if nat_eq output base_asset
      then contains_key s.reserves (dex, input)
      else contains_key s.reserves (dex, output) && contains_key s.reserves (dex, input)

  unfoldable pub quote : ℕ → ℕ → ℕ → SwapAmount ℕ → State S L → Fallible (SwapOutcome ℕ)
  unfolding get_base_amount_out get_target_amount_out get_base_amount_in get_target_amount_in
      try_to_fixed
  quote dex input output asked s = do
    amount ← converted (try_to_fixed (limited asked))
    (if nat_eq input base_asset
        then quote_base_input fx env.fee amount (reserves_of s dex output)
        else if nat_eq output base_asset
        then quote_base_output fx env.fee amount (reserves_of s dex input)
        else quote_targets fx env.fee amount (reserves_of s dex input) (reserves_of s dex output))

  unfoldable pub exchange : ℕ → ℕ → ℕ → ℕ → ℕ → SwapAmount ℕ → Effect (State S L) (SwapOutcome ℕ)
  unfolding quote
  exchange sender receiver dex input output asked = reads (quote dex input output asked)

  -- The pallet behind the gateway.
  unfoldable pub mock_source : LiquiditySource ℕ (State S L)
  unfolding can_exchange quote exchange
  mock_source = record { can_exchange = can_exchange; quote = quote; exchange = exchange }

  -- `unwrap_or(balance!(0))` of a failed conversion; the exchange is Polkaswap.
  unfoldable pub pool_reserves : GetPoolReserves (State S L)
  pool_reserves = record {
    reserves = λ base other s.
        let (b, t) = reserves_of s 0 other in
        (unwrap_or (bits_to_balance b) 0, unwrap_or (bits_to_balance t) 0);
  }
