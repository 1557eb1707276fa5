-- ===== src/MockSource/Tests.antt =====
-- pallets/mock-liquidity-source/src/lib.rs: runs, and the theorems at concrete reserves.
use sora2_parachain.Prelude.{ℕ, ◌≡◌, ◌*◌, ◌+◌, ◌-◌, ◌/◌, ◌≤◌, ℤ, pos, refl, some, [], ◌∷◌, arith}
use sora2_parachain.Common.Currency.{Sheet}
use sora2_parachain.Common.Result.{ok}
use sora2_parachain.Common.Fixed.{one}
use sora2_parachain.Common.Fixed.Floored.{floored, floored-IsFloored}
use sora2_parachain.Common.SwapAmounts.{
  SwapOutcome, with_desired_input, outcome, outcome_to_balance,
}
use sora2_parachain.Xyk.Fixtures.{technical_env, technical_state, pool, tokens}
use sora2_parachain.MockSource.{State, Env, quote, get_target_amount_out, get_base_amount_out}
use sora2_parachain.MockSource.Product.{get_target_amount_out-product, get_base_amount_out-product}

abbrev three_thousandths : ℕ
three_thousandths = 3_000_000_000_000_000

unfoldable mock_env : Env ℕ Sheet
unfolding floored
mock_env = record {
  technical_env = technical_env;
  fx = floored;
  fee = pos three_thousandths;
  base_asset = 10;
  ensure_can_manage = λ dex origin mode s. ok (some 1);
  ensure_trading_pair_exists = λ dex base target s. ok tt;
}

abbrev stocked : State ℕ Sheet
stocked = record {
  technical = technical_state;
  reserves =
      ((0, 11), (pos (tokens 100), pos (tokens 200)))
      ∷ ((0, 12), (pos (tokens 100), pos (tokens 50)))
      ∷ [];
  reserves_acc = pool;
}

-- A target for another, by way of the base asset.
quote_run :
    quote mock_env 0 11 12 (with_desired_input (tokens 10) 0) stocked
    ≡ ok (outcome 2_259_726_728_310_423_079 28_528_571_428_571_427)
unfolding quote mock_env outcome_to_balance
quote_run = refl

get_target_amount_out-product_example :
    (out : ℕ) × (◌≡◌ {A = SwapOutcome ℤ}
      (outcome (pos 18_132_217_877_602_982_631) (pos 30_000_000_000_000_000))
      (outcome (pos out) (pos (tokens 10 * three_thousandths / one))))
    × (out ≤ tokens 200)
    × (tokens 100 * tokens 200 ≤ (tokens 100 + tokens 10) * (tokens 200 - out))
unfolding get_target_amount_out floored
get_target_amount_out-product_example =
    get_target_amount_out-product floored floored-IsFloored (tokens 10) (tokens 100) (tokens 200)
      three_thousandths (omega arith) (omega arith) refl

get_base_amount_out-product_example :
    (out fee : ℕ) × (◌≡◌ {A = SwapOutcome ℤ}
      (outcome (pos 4_747_619_047_619_047_619) (pos 14_285_714_285_714_285))
      (outcome (pos out) (pos fee)))
    × (out + fee ≤ tokens 100)
    × (tokens 100 * tokens 200 ≤ (tokens 100 - (out + fee)) * (tokens 200 + tokens 10))
unfolding get_base_amount_out floored
get_base_amount_out-product_example =
    get_base_amount_out-product floored floored-IsFloored (tokens 10) (tokens 100) (tokens 200)
      three_thousandths (omega arith) refl
