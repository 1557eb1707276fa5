-- ===== src/Common/SwapAmounts.antt =====
-- common/src/swap_amount.rs: amounts that a caller fixes on one side of a swap and limits on the
-- other, and their conversions between `Balance` (`u128`) and `Fixed` (bits in `i128`).
use sora2_parachain.Prelude.{ℕ, ℤ, pos, negsuc, leb, if◌then◌else◌, Option, none, some}
use sora2_parachain.Common.Result.{Result, ok, err}
use sora2_parachain.Common.Fixed.{Fixnum, max_bits}

pub data QuoteAmount (A : Type 0) : Type 0 where
  with_desired_input with_desired_output : A → QuoteAmount A

abbrev pub quote_amount : {A : Type 0} → QuoteAmount A → A
quote_amount (QuoteAmount.with_desired_input a) = a
quote_amount (QuoteAmount.with_desired_output a) = a

pub data SwapVariant : Type 0 where
  desired_input desired_output : SwapVariant

-- `with_desired_input desired_amount_in min_amount_out`, and
-- `with_desired_output desired_amount_out max_amount_in`.
pub data SwapAmount (A : Type 0) : Type 0 where
  with_desired_input with_desired_output : A → A → SwapAmount A

unfoldable pub with_variant : {A : Type 0} → SwapVariant → A → A → SwapAmount A
with_variant desired_input amount limit = SwapAmount.with_desired_input amount limit
with_variant desired_output amount limit = SwapAmount.with_desired_output amount limit

unfoldable pub amount : {A : Type 0} → SwapAmount A → A
amount (SwapAmount.with_desired_input a limit) = a
amount (SwapAmount.with_desired_output a limit) = a

-- `impl From<SwapAmount<T>> for SwapVariant`
unfoldable pub variant_of : {A : Type 0} → SwapAmount A → SwapVariant
variant_of (SwapAmount.with_desired_input a limit) = desired_input
variant_of (SwapAmount.with_desired_output a limit) = desired_output

-- `i128::try_into::<u128>` and back; `none` is the error.
abbrev pub bits_to_balance : ℤ → Option ℕ
bits_to_balance (pos n) = some n
bits_to_balance (negsuc n) = none

abbrev pub balance_to_bits : ℕ → Option ℤ
balance_to_bits n = if leb n max_bits then some (pos n) else none

abbrev pub both_some : {A B : Type 0} → (A → A → B) → Option A → Option A → Option B
both_some f (some a) (some b) = some (f a b)
both_some f (some a) none = none
both_some f none b = none

abbrev pub try_map : {A B : Type 0} → (A → Option B) → SwapAmount A → Option (SwapAmount B)
try_map f (SwapAmount.with_desired_input a l) = both_some SwapAmount.with_desired_input (f a) (f l)
try_map f (SwapAmount.with_desired_output a l) =
    both_some SwapAmount.with_desired_output (f a) (f l)

unfoldable pub try_to_balance : SwapAmount ℤ → Option (SwapAmount ℕ)
try_to_balance = try_map bits_to_balance

unfoldable pub try_to_fixed : SwapAmount ℕ → Option (SwapAmount ℤ)
try_to_fixed = try_map balance_to_bits

abbrev pub map_amount : {A B : Type 0} → (A → B) → SwapAmount A → SwapAmount B
map_amount f (SwapAmount.with_desired_input a l) = SwapAmount.with_desired_input (f a) (f l)
map_amount f (SwapAmount.with_desired_output a l) = SwapAmount.with_desired_output (f a) (f l)

-- `unique_saturated_into`, from `i128` to `u128` and back.
abbrev pub saturated_balance : ℤ → ℕ
saturated_balance (pos n) = n
saturated_balance (negsuc n) = 0

abbrev pub saturated_bits : ℕ → ℤ
saturated_bits n = if leb n max_bits then pos n else pos max_bits

-- `UniqueSaturatedFrom`
unfoldable pub saturated_to_balance : SwapAmount ℤ → SwapAmount ℕ
saturated_to_balance = map_amount saturated_balance

unfoldable pub saturated_to_fixed : SwapAmount ℕ → SwapAmount ℤ
saturated_to_fixed = map_amount saturated_bits

abbrev pub value : {E A : Type 0} → Result E A → Option A
value (ok a) = some a
value (err e) = none

-- `Mul<Fixed>` for amounts, on both of its sides; `none` is the panic of an `unwrap`.
unfoldable pub times : Fixnum → SwapAmount ℤ → ℤ → Option (SwapAmount ℤ)
times fx a factor = try_map (λ x. value (fx.rmul factor x)) a

-- Both amounts are `Balance`, or both are `Fixed`.
pub record SwapOutcome (A : Type 0) : Type 0 where
  pub amount : A
  pub fee : A

abbrev pub outcome : {A : Type 0} → A → A → SwapOutcome A
outcome a f = record { amount = a; fee = f }

-- `TryFrom` between the outcomes.
unfoldable pub outcome_to_fixed : SwapOutcome ℕ → Option (SwapOutcome ℤ)
outcome_to_fixed o = both_some outcome (balance_to_bits o.amount) (balance_to_bits o.fee)

unfoldable pub outcome_to_balance : SwapOutcome ℤ → Option (SwapOutcome ℕ)
outcome_to_balance o = both_some outcome (bits_to_balance o.amount) (bits_to_balance o.fee)
