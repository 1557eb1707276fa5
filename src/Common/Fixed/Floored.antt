-- ===== src/Common/Fixed/Floored.antt =====
-- A stand-in for `fixnum` that meets what common/src/fixed_wrapper.rs relies on, for runs and for
-- the theorems at concrete numbers.
use sora2_parachain.Prelude.{
  ℕ, ◌+◌, ◌-◌, ◌*◌, ◌^◌, ◌/◌, ◌≤◌, ◌≡◌, refl, zero, suc, ℤ, pos, negsuc, ◌+ℤ◌, ◌-ℤ◌, arith, leb,
  if◌then◌else◌,
}
use sora2_parachain.Common.Result.{ok, err}
use sora2_parachain.Common.Fixed.{
  Fixnum, IsFloored, Checked, ArithmeticError, overflow, unnamed, one, max_bits, fitting,
}

-- The result, if it is an `i128`.
abbrev in_range : ℤ → Checked ℤ
in_range (pos n) = fitting n
in_range (negsuc n) = if leb n max_bits then ok (negsuc n) else err overflow

-- -(n / d), rounded down.
abbrev minus_quotient : ℕ → ℕ → Checked ℤ
minus_quotient zero d = ok (pos 0)
minus_quotient (suc n) d = in_range (negsuc (n / d))

-- a / d, rounded down, where `d` is positive.
abbrev scaled : ℤ → ℕ → Checked ℤ
scaled (pos n) d = fitting (n / d)
scaled (negsuc n) d = minus_quotient (suc n) d

abbrev times : ℤ → ℤ → Checked ℤ
times (pos a) (pos b) = fitting (a * b / one)
times (pos a) (negsuc b) = minus_quotient (a * suc b) one
times (negsuc a) (pos b) = minus_quotient (suc a * b) one
times (negsuc a) (negsuc b) = fitting (suc a * suc b / one)

abbrev quotient : ℤ → ℤ → Checked ℤ
quotient (pos a) (pos zero) = err (unnamed 0)
quotient (negsuc a) (pos zero) = err (unnamed 0)
quotient (pos a) (pos (suc b)) = fitting (a * one / suc b)
quotient (negsuc a) (pos (suc b)) = minus_quotient (suc a * one) (suc b)
quotient (pos a) (negsuc b) = minus_quotient (a * one) (suc b)
quotient (negsuc a) (negsuc b) = fitting (suc a * one / suc b)

-- The largest `r` with `r * r ≤ n`, by its bits from bit `k - 1` down.
abbrev root : ℕ → ℕ → ℕ → ℕ
root zero r n = r
root (suc k) r n = root k (if leb ((r + 2 ^ k) * (r + 2 ^ k)) n then r + 2 ^ k else r) n

abbrev square_root : ℤ → Checked ℤ
square_root (pos n) = ok (pos (root 100 0 (n * one)))
square_root (negsuc n) = err (unnamed 1)

-- The product with an integer.
abbrev scaled_up : ℤ → ℕ → Checked ℤ
scaled_up (pos a) n = fitting (a * n)
scaled_up (negsuc a) zero = ok (pos 0)
scaled_up (negsuc a) (suc n) = in_range (negsuc (suc a * suc n - 1))

abbrev minus : ℕ → ℤ
minus zero = pos 0
minus (suc n) = negsuc n

-- The nearest integer, half away from zero.
abbrev nearest : ℤ → ℤ
nearest (pos a) = pos ((a + one / 2) / one)
nearest (negsuc a) = minus ((suc a + one / 2) / one)

unfoldable pub floored : Fixnum
unfolding ◌+ℤ◌ ◌-ℤ◌
floored = record {
  cadd = λ a b. in_range (a +ℤ b);
  csub = λ a b. in_range (a -ℤ b);
  rmul = times;
  rdiv = quotient;
  rsqrt = square_root;
  from_int = λ n. fitting (n * one);
  cmul = λ a n. scaled_up a n;
  rounding_to_i64 = nearest;
}

quotient-pos : (a b : ℕ) → suc zero ≤ b → quotient (pos a) (pos b) ≡ fitting (a * one / b)
quotient-pos a zero h = absurd (omega arith)
quotient-pos a (suc b) h = refl

quotient-zero : (a : ℤ) → (e : ArithmeticError) × (quotient a (pos 0) ≡ err e)
quotient-zero (pos a) = (unnamed 0, refl)
quotient-zero (negsuc a) = (unnamed 0, refl)

pub floored-IsFloored : IsFloored floored
unfolding floored ◌+ℤ◌ ◌-ℤ◌
floored-IsFloored = record {
  cadd_lem = λ a b. ground arith;
  csub_lem = λ a b h k. ground arith;
  rmul_lem = λ a b. refl;
  rdiv_lem = quotient-pos;
  from_int_lem = λ n. refl;
  rdiv_zero = quotient-zero;
}
