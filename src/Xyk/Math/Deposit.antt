-- ===== src/Xyk/Math/Deposit.antt =====
-- pallets/pool-xyk/src/math.rs: quotes, the deposit that fits the reserves, and the liquidity that
-- it earns.
use sora2_parachain.Prelude.{ℕ, ◌+◌, ◌*◌, ◌/◌, ◌≤◌, ◌<◌, ◌≡◌, ◌∙◌, ap, pos, min, arith, ◌⊎◌}
use native.Mathlib.Nat.{le_trans, div-mul-le_self, mul-le-mul_right}
use sora2_parachain.Common.Result.{ok, ◌>>=◌, >>=-eq-ok}
use sora2_parachain.Common.Fixed.{Fixnum, IsFloored, one, from_u128, div}
use sora2_parachain.Xyk.Math.{
  Outcome, to_balance, calculate_quote, calculate_optimal_deposit, calc_deposit_liquidity_1,
  choose_deposit,
}
use sora2_parachain.Xyk.Math.Output.{div_bounds, exact-le-rounded}

-- A product is rounded down to the scale `e` before it is divided.
module _ (m r e : ℕ) (he : 0 < e) (hr : 0 < r) where
  pub quote-le : m / e * e / r * r ≤ m
  quote-le = omega (arith, div-mul-le_self (m / e * e) r, div-mul-le_self m e)

  pub quote-near : m < m / e * e / r * r + r + e
  quote-near = omega (arith, div_bounds (m / e * e) r hr, div_bounds m e he)

module _ (fx : Fixnum) (laws : IsFloored fx) where
  open laws use {rmul_lem, rdiv_lem, rdiv_zero}

  quote-value :
      (a ra rb : ℕ) {q : ℕ}
      → calculate_quote fx a ra rb ≡ ok q
      → (0 < ra) × (q ≡ a * rb / one * one / ra)
  unfolding calculate_quote
  quote-value a ra rb h =
      ground (arith, rmul_lem a rb, rdiv_lem (a * rb / one) ra, rdiv_zero (pos (a * rb / one)))

  -- A quote is at most the exact amount `a * rb / ra`, and by less than `1 + 10^18 / ra` under it.
  pub calculate_quote_bounds :
      (a ra rb : ℕ) {q : ℕ}
      → calculate_quote fx a ra rb ≡ ok q
      → (q * ra ≤ a * rb) × (a * rb < q * ra + ra + one)
  calculate_quote_bounds a ra rb h =
      let (hr, e) = quote-value a ra rb h in
      rw e (quote-le (a * rb) ra one (omega arith) hr, quote-near (a * rb) ra one (omega arith) hr)

  -- With minimal amounts that do not exceed the desired ones, a deposit that is computed lies
  -- between them on both sides, takes one of the desired amounts whole, and the other at its quote.
  pub calculate_optimal_deposit_bounds :
      (supply ra rb a b a_min b_min : ℕ) {x y : ℕ}
      → a_min ≤ a
      → b_min ≤ b
      → calculate_optimal_deposit fx supply ra rb a b a_min b_min ≡ ok (x, y)
      → (a_min ≤ x)
        × (x ≤ a)
        × (b_min ≤ y)
        × (y ≤ b)
        × ((x ≡ a) × (calculate_quote fx a ra rb ≡ ok y)
            ⊎ (y ≡ b) × (calculate_quote fx b rb ra ≡ ok x))
  unfolding calculate_optimal_deposit
  calculate_optimal_deposit_bounds supply ra rb a b a_min b_min {x} {y} ha hb h =
      let (opt_a, first, rest) =
        >>=-eq-ok (calculate_quote fx b rb ra)
          (λ opt_a.
            calculate_quote fx a ra rb >>= λ opt_b. choose_deposit fx opt_a opt_b a b a_min b_min)
          h in
      let (opt_b, second, last) =
        >>=-eq-ok (calculate_quote fx a ra rb)
          (λ opt_b. choose_deposit fx opt_a opt_b a b a_min b_min) rest in
      ground arith

  share-value :
      (am r supply : ℕ) {l : ℕ}
      → to_balance (div fx (from_u128 am) (div fx (from_u128 r) (from_u128 supply))) ≡ ok l
      → (0 < r * one / supply) × (0 < supply) × (l ≡ am * one / (r * one / supply))
  share-value am r supply h = ground (
    arith,
    rdiv_lem r supply,
    rdiv_zero (pos r),
    rdiv_lem am (r * one / supply),
    rdiv_zero (pos am),
  )

  ok_triple :
      (a b c x y z : ℕ)
      → ◌≡◌ {A = Outcome (ℕ × ℕ × ℕ)} (ok (a, b, c)) (ok (x, y, z))
      → (a ≡ x) × (b ≡ y) × (c ≡ z)
  ok_triple a b c x y z h = ground arith

  smaller_share :
      (supply ra rb x y : ℕ) {lhs rhs : ℕ}
      → to_balance (div fx (from_u128 x) (div fx (from_u128 ra) (from_u128 supply))) ≡ ok lhs
      → to_balance (div fx (from_u128 y) (div fx (from_u128 rb) (from_u128 supply))) ≡ ok rhs
      → (min (x * supply / ra) (y * supply / rb) ≤ min lhs rhs)
        × (min lhs rhs * (ra * one / supply) ≤ x * one)
        × (min lhs rhs * (rb * one / supply) ≤ y * one)
  smaller_share supply ra rb x y {lhs} {rhs} first second =
      let (qa, sa, va) = share-value x ra supply first in
      let (qb, sb, vb) = share-value y rb supply second in
      let ea : x * supply / ra ≤ lhs = rw va (exact-le-rounded x ra supply one sa qa) in
      let eb : y * supply / rb ≤ rhs = rw vb (exact-le-rounded y rb supply one sb qb) in
      let la : lhs * (ra * one / supply) ≤ x * one =
        rw va (div-mul-le_self (x * one) (ra * one / supply)) in
      let lb : rhs * (rb * one / supply) ≤ y * one =
        rw vb (div-mul-le_self (y * one) (rb * one / supply)) in
      let fa : min lhs rhs ≤ lhs = omega arith in
      let fb : min lhs rhs ≤ rhs = omega arith in
      (
        omega arith,
        le_trans (mul-le-mul_right (ra * one / supply) fa) la,
        le_trans (mul-le-mul_right (rb * one / supply) fb) lb,
      )

  -- A deposit earns at least the smaller of its exact shares `amount * supply / reserve`, rounded
  -- down, and for neither asset more than the amount divided by the reserve per token of supply,
  -- where that quotient is rounded down at 18 digits.
  pub calc_deposit_liquidity_bounds :
      (supply ra rb a b a_min b_min : ℕ) {x y l : ℕ}
      → calc_deposit_liquidity_1 fx supply ra rb a b a_min b_min ≡ ok (x, y, l)
      → (min (x * supply / ra) (y * supply / rb) ≤ l)
        × (l * (ra * one / supply) ≤ x * one)
        × (l * (rb * one / supply) ≤ y * one)
  unfolding calc_deposit_liquidity_1
  calc_deposit_liquidity_bounds supply ra rb a b a_min b_min {x} {y} {l} h =
      let share = λ (am r : ℕ).
        to_balance (div fx (from_u128 am) (div fx (from_u128 r) (from_u128 supply))) in
      let ((am_a, am_b), chosen, rest) =
        >>=-eq-ok (calculate_optimal_deposit fx supply ra rb a b a_min b_min)
          (λ (p : ℕ × ℕ).
            share p.0 ra >>= λ lhs. share p.1 rb >>= λ rhs. ok (p.0, p.1, min lhs rhs))
          h in
      let (lhs, first, more) =
        >>=-eq-ok (share am_a ra) (λ lhs. share am_b rb >>= λ rhs. ok (am_a, am_b, min lhs rhs))
          rest in
      let (rhs, second, last) =
        >>=-eq-ok (share am_b rb) (λ rhs. ok (am_a, am_b, min lhs rhs)) more in
      let (ex, ey, el) = ok_triple _ _ _ _ _ _ last in
      rw (← ex, ← ey, ← el) (smaller_share supply ra rb am_a am_b first second)

-- The amounts of a deposit are those of the optimal one.
pub calc_deposit_liquidity-optimal :
    (fx : Fixnum) (supply ra rb a b a_min b_min : ℕ) {x y l : ℕ}
    → calc_deposit_liquidity_1 fx supply ra rb a b a_min b_min ≡ ok (x, y, l)
    → calculate_optimal_deposit fx supply ra rb a b a_min b_min ≡ ok (x, y)
unfolding calc_deposit_liquidity_1
calc_deposit_liquidity-optimal fx supply ra rb a b a_min b_min {x} {y} {l} h =
    let share =
      λ (am r : ℕ). to_balance (div fx (from_u128 am) (div fx (from_u128 r) (from_u128 supply))) in
    let ((am_a, am_b), chosen, rest) =
      >>=-eq-ok (calculate_optimal_deposit fx supply ra rb a b a_min b_min)
        (λ (p : ℕ × ℕ). share p.0 ra >>= λ lhs. share p.1 rb >>= λ rhs. ok (p.0, p.1, min lhs rhs))
        h in
    let (lhs, first, more) =
      >>=-eq-ok (share am_a ra) (λ lhs. share am_b rb >>= λ rhs. ok (am_a, am_b, min lhs rhs))
        rest in
    let (rhs, second, last) =
      >>=-eq-ok (share am_b rb) (λ rhs. ok (am_a, am_b, min lhs rhs)) more in
    let (ex, ey, el) = same_triple _ _ _ _ _ _ last in
    chosen ∙ ap (λ n. ok (n, am_b)) ex ∙ ap (λ n. ok (x, n)) ey
  where
    same_triple :
        (a b c x y z : ℕ)
        → ◌≡◌ {A = Outcome (ℕ × ℕ × ℕ)} (ok (a, b, c)) (ok (x, y, z))
        → (a ≡ x) × (b ≡ y) × (c ≡ z)
    same_triple a b c x y z h = ground arith
