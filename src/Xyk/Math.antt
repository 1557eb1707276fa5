-- ===== src/Xyk/Math.antt =====
-- pallets/pool-xyk/src/math.rs: fees, quotes and swap amounts of a constant-product pool, with the
-- macros of macros.rs and the guards of utils.rs. The functions ignore the asset ids and the
-- technical account that the source passes them, so these are left out.
pub mod Output
pub mod Deposit
use sora2_parachain.Prelude.{ℕ, ◌+◌, ◌-◌, ◌*◌, ◌%◌, ◌^◌, Bool, ◌&&◌, leb, min, if◌then◌else◌}
use sora2_parachain.Common.Errors.{DispatchError, XykError}
use sora2_parachain.Common.Result.{Result, ok, ◌>>=◌, ◌>>◌, ensure, map_err}
pub use sora2_parachain.Common.Fixed.{wrapping_sub}
use sora2_parachain.Common.Fixed.{
  Fixnum, FixedWrapper, one, from_u128, try_into_balance, add, sub, mul, div,
}

abbrev pub Outcome : Type 0 → Type 0
Outcome = Result DispatchError

abbrev pub failed : XykError → DispatchError
failed = DispatchError.xyk

-- The macro `to_balance!`.
abbrev pub to_balance : FixedWrapper → Outcome ℕ
to_balance w = map_err (λ _. failed XykError.fixed_wrapper_calculation_failed) (try_into_balance w)

-- `balance!(n)`
abbrev pub balance : ℕ → ℕ
balance n = n * one

abbrev pub guard_fee_from_destination : Outcome (Unit {0})
guard_fee_from_destination = ok tt

abbrev pub guard_fee_from_source : Outcome (Unit {0})
guard_fee_from_source = ok tt

module _ (fx : Fixnum) where
  unfoldable pub get_fee_for_source : ℕ → Outcome ℕ
  get_fee_for_source x_in =
      to_balance
        (div fx (mul fx (from_u128 x_in) (from_u128 (balance 3))) (from_u128 (balance 1000)))

  unfoldable pub get_fee_for_destination : ℕ → Outcome ℕ
  get_fee_for_destination y_out =
      to_balance
        (div fx (mul fx (from_u128 y_out) (from_u128 (balance 3))) (from_u128 (balance 1000)))

  unfoldable pub calculate_quote : ℕ → ℕ → ℕ → Outcome ℕ
  calculate_quote amount_a reserve_a reserve_b =
      to_balance (div fx (mul fx (from_u128 amount_a) (from_u128 reserve_b)) (from_u128 reserve_a))

  -- The last test, on the two quotes.
  abbrev pub choose_deposit : ℕ → ℕ → ℕ → ℕ → ℕ → ℕ → Outcome (ℕ × ℕ)
  choose_deposit opt_a opt_b a_desired b_desired a_min b_min =
      if leb opt_b b_desired
      then (ensure (leb b_min opt_b) (failed XykError.impossible_to_decide_valid_pair_values)
          >> ok (a_desired, opt_b))
      else (ensure (leb a_min opt_a && leb opt_a a_desired)
            (failed XykError.impossible_to_decide_valid_pair_values)
          >> ok (opt_a, b_desired))

  unfoldable pub calculate_optimal_deposit : ℕ → ℕ → ℕ → ℕ → ℕ → ℕ → ℕ → Outcome (ℕ × ℕ)
  calculate_optimal_deposit total_supply reserve_a reserve_b a_desired b_desired a_min b_min = do
    opt_a ← calculate_quote b_desired reserve_b reserve_a
    opt_b ← calculate_quote a_desired reserve_a reserve_b
    choose_deposit opt_a opt_b a_desired b_desired a_min b_min

  unfoldable pub calc_deposit_liquidity_1 : ℕ → ℕ → ℕ → ℕ → ℕ → ℕ → ℕ → Outcome (ℕ × ℕ × ℕ)
  calc_deposit_liquidity_1 total_supply reserve_a reserve_b a_desired b_desired a_min b_min = do
    (am_a, am_b) ←
        calculate_optimal_deposit total_supply reserve_a reserve_b a_desired b_desired a_min b_min
    lhs ←
        to_balance (div fx (from_u128 am_a) (div fx (from_u128 reserve_a) (from_u128 total_supply)))
    rhs ←
        to_balance (div fx (from_u128 am_b) (div fx (from_u128 reserve_b) (from_u128 total_supply)))
    ok (am_a, am_b, min lhs rhs)

  -- `y1 = x_in / ((x + x_in) / y)`
  abbrev pub output_of : FixedWrapper → FixedWrapper → FixedWrapper → FixedWrapper
  output_of x y x_in = div fx x_in (div fx (add fx x x_in) y)

  unfoldable pub calc_output_for_exact_input : Bool → ℕ → ℕ → ℕ → Outcome (ℕ × ℕ)
  calc_output_for_exact_input get_fee_from_destination x y x_in =
      if get_fee_from_destination
      then (do
        guard_fee_from_destination
        y1 ← to_balance (output_of (from_u128 x) (from_u128 y) (from_u128 x_in))
        fee_of_y1 ← get_fee_for_destination y1
        ok (y1, fee_of_y1))
      else (do
        guard_fee_from_source
        fee_of_x_in ← get_fee_for_source x_in
        y_out ← to_balance (
            output_of (from_u128 x) (from_u128 y) (sub fx (from_u128 x_in) (from_u128 fee_of_x_in)))
        ok (y_out, fee_of_x_in))

  unfoldable pub calc_input_for_exact_output : Bool → ℕ → ℕ → ℕ → Outcome (ℕ × ℕ)
  calc_input_for_exact_output get_fee_from_destination x y y_out =
      if get_fee_from_destination
      then (do
        guard_fee_from_destination
        fract_a ← get_fee_for_destination (balance 1)
        let fract_b = wrapping_sub (balance 1) fract_a
        let y1 = div fx (from_u128 y_out) (from_u128 fract_b)
        x_in ← to_balance (div fx (from_u128 x) (div fx (sub fx (from_u128 y) y1) y1))
        fee ← to_balance (sub fx y1 (from_u128 y_out))
        ok (x_in, fee))
      else (do
        guard_fee_from_source
        let y_minus_y_out = wrapping_sub y y_out
        ymyo_fee ← get_fee_for_source y_minus_y_out
        let ymyo_subfee = wrapping_sub y_minus_y_out ymyo_fee
        x_in ← to_balance (div fx (from_u128 x) (div fx (from_u128 ymyo_subfee) (from_u128 y_out)))
        fee ← get_fee_for_source x_in
        ok (x_in, fee))
