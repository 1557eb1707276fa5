-- ===== src/Xyk/Math/Output.antt =====
-- pallets/pool-xyk/src/math.rs: how the fees and the output of a swap lie to their exact values.
use sora2_parachain.Prelude.{
  ℕ, ◌+◌, ◌-◌, ◌*◌, ◌/◌, ◌≤◌, ◌<◌, ◌≡◌, refl, leb, Bool-cases, pos, true, false, arith, inl, inr,
}
use native.Mathlib.Nat.{
  div-add-mod', mod-lt, mul-le-mul_left, mul-le-mul_right, div-mul-le_self, le-div_iff_mul-le,
  le_of_mul-le-mul_right,
}
use sora2_parachain.Common.Result.{ok, ◌>>=◌, >>=-eq-ok}
use sora2_parachain.Common.Fixed.{Fixnum, IsFloored, one, max_bits, from_u128, sub}
use sora2_parachain.Xyk.Math.{
  to_balance, balance, get_fee_for_source, get_fee_for_destination, output_of,
  calc_output_for_exact_input,
}

pub div_bounds : (n d : ℕ) → 0 < d → (n / d * d ≤ n) × (n < n / d * d + d)
div_bounds n d h = omega (arith, div-add-mod' n d, mod-lt n h)

-- `y1 = a / (s / y)`, rounded down twice at the scale `e`, against the exact `a * y / s`.
module _ (a s y e : ℕ) (hy : 0 < y) (hq : 0 < s * e / y) where
  pub exact-le-rounded : a * y / s ≤ a * e / (s * e / y)
  exact-le-rounded =
      let q = s * e / y in
      let t = a * y / s in
      let under : t * q * y ≤ a * e * y = omega (
        arith,
        mul-le-mul_left t (div-mul-le_self (s * e) y),
        mul-le-mul_right e (div-mul-le_self (a * y) s),
      ) in
      (le-div_iff_mul-le hq).1 (le_of_mul-le-mul_right under hy)

  pub rounded-le-exact : a * e / (s * e / y) * (s * e) ≤ a * y * e + a * e / (s * e / y) * y
  rounded-le-exact =
      let q = s * e / y in
      let y1 = a * e / q in
      let above : s * e ≤ q * y + y = omega (arith, div_bounds (s * e) y hy) in
      omega (arith, mul-le-mul_left y1 above, mul-le-mul_right y (div-mul-le_self (a * e) q))

pub mul-one-div-one : (n : ℕ) → n * one / one ≡ n
mul-one-div-one n = omega arith

module _ (fx : Fixnum) (laws : IsFloored fx) where
  open laws use {cadd_lem, csub_lem, rmul_lem, rdiv_lem, rdiv_zero}

  -- The fee for an amount is three thousandths of it, rounded down, unless three times the amount
  -- overflow a `Fixed`.
  pub get_fee_lem : (x : ℕ) → x * 3 ≤ max_bits → get_fee_for_source fx x ≡ ok (x * 3 / 1000)
  unfolding get_fee_for_source
  get_fee_lem x h =
      ground
        (arith, rmul_lem x (balance 3), rdiv_lem (x * balance 3 / one) (balance 1000) (omega arith))

  pub get_fee-inv :
      (x : ℕ) {f : ℕ} → get_fee_for_source fx x ≡ ok f → (f ≡ x * 3 / 1000) × (x * 3 ≤ max_bits)
  unfolding get_fee_for_source
  get_fee-inv x h =
      ground
        (arith, rmul_lem x (balance 3), rdiv_lem (x * balance 3 / one) (balance 1000) (omega arith))

  pub output_of-inv :
      (x y x_in : ℕ) {r : ℕ}
      → to_balance (output_of fx (from_u128 x) (from_u128 y) (ok (pos x_in))) ≡ ok r
      → (0 < y) × (0 < (x + x_in) * one / y) × (r ≡ x_in * one / ((x + x_in) * one / y))
  output_of-inv x y x_in h = ground (
    arith,
    cadd_lem x x_in,
    rdiv_lem (x + x_in) y,
    rdiv_zero (pos (x + x_in)),
    rdiv_lem x_in ((x + x_in) * one / y),
    rdiv_zero (pos x_in),
  )

  output_of-fits :
      (x y x_in : ℕ) {r : ℕ}
      → to_balance (output_of fx (from_u128 x) (from_u128 y) (from_u128 x_in)) ≡ ok r
      → (0 < y) × (0 < (x + x_in) * one / y) × (r ≡ x_in * one / ((x + x_in) * one / y))
  output_of-fits x y x_in h = elim (Bool-cases (leb x_in max_bits)) [
    | inl e ↦ output_of-inv x y x_in (rw e at h)
    | inr e ↦ absurd (ground arith)
  ]

  destination-eq-source : (x : ℕ) → get_fee_for_destination fx x ≡ get_fee_for_source fx x
  unfolding get_fee_for_source get_fee_for_destination
  destination-eq-source x = refl

  -- A fee is part of the input, so what is left of it is exact.
  difference :
      (x_in f : ℕ)
      → x_in * 3 ≤ max_bits
      → f ≡ x_in * 3 / 1000
      → sub fx (from_u128 x_in) (from_u128 f) ≡ ok (pos (x_in - f))
  difference x_in f small share = ground (arith, csub_lem x_in f (omega arith) (omega arith))

  -- The fee is taken from the destination. A swap that is computed pays out at least the exact
  -- constant-product amount, rounded down, and at most that amount and one part in 10^18 of the
  -- product `y1 * y` more; its fee is three thousandths of the output, rounded down.
  pub calc_output-from_destination :
      (x y x_in : ℕ) {y1 fee : ℕ}
      → calc_output_for_exact_input fx true x y x_in ≡ ok (y1, fee)
      → (x_in * y / (x + x_in) ≤ y1)
        × (y1 * ((x + x_in) * one) ≤ x_in * y * one + y1 * y)
        × (fee ≡ y1 * 3 / 1000)
  unfolding calc_output_for_exact_input
  calc_output-from_destination x y x_in {y1} {fee} h =
      let (r, first, rest) =
        >>=-eq-ok (to_balance (output_of fx (from_u128 x) (from_u128 y) (from_u128 x_in)))
          (λ r. get_fee_for_destination fx r >>= λ f. ok (r, f)) h in
      let (f, second, last) = >>=-eq-ok (get_fee_for_destination fx r) (λ f. ok (r, f)) rest in
      let (hy, hq, value) = output_of-fits x y x_in first in
      ground (
        arith,
        destination-eq-source r,
        get_fee-inv r {f = f},
        exact-le-rounded x_in (x + x_in) y one hy hq,
        rounded-le-exact x_in (x + x_in) y one hy hq,
      )

  -- The fee is taken from the source: three thousandths of the input, rounded down, are left out
  -- of the swap, and the output lies to the exact amount for the rest as above.
  pub calc_output-from_source :
      (x y x_in : ℕ) {y_out fee : ℕ}
      → calc_output_for_exact_input fx false x y x_in ≡ ok (y_out, fee)
      → let rest = x_in - fee in
        (fee ≡ x_in * 3 / 1000)
        × (rest * y / (x + rest) ≤ y_out)
        × (y_out * ((x + rest) * one) ≤ rest * y * one + y_out * y)
  unfolding calc_output_for_exact_input
  calc_output-from_source x y x_in {y_out} {fee} h =
      let swap = λ (f : ℕ).
        to_balance
          (output_of fx (from_u128 x) (from_u128 y) (sub fx (from_u128 x_in) (from_u128 f))) in
      let (f, first, rest) =
        >>=-eq-ok (get_fee_for_source fx x_in) (λ f. swap f >>= λ r. ok (r, f)) h in
      let (r, second, last) = >>=-eq-ok (swap f) (λ r. ok (r, f)) rest in
      let (share, small) = get_fee-inv x_in first in
      let left = x_in - f in
      let (hy, hq, value) = output_of-inv x y left (rw (difference x_in f small share) at second) in
      ground (
        arith,
        exact-le-rounded left (x + left) y one hy hq,
        rounded-le-exact left (x + left) y one hy hq,
      )
