-- ===== src/Common/Fixed.antt =====
-- common/src/fixed_wrapper.rs and the type `Fixed` of common/src/lib.rs. The crate `fixnum` is not
-- part of the repository: its operations on the bits of a `FixedPoint<i128, U18>` are parameters,
-- and `IsFloored` is what it documents of them on numbers that are not negative.
pub mod Inversion
pub mod Floored
use sora2_parachain.Prelude.{
  ℕ, ◌+◌, ◌-◌, ◌*◌, ◌/◌, ◌≤◌, ◌<◌, ◌≡◌, ℤ, pos, negsuc, leb, if◌then◌else◌, ◌^◌, ◌%◌, Bool, false,
  ltb_ℤ,
}
use sora2_parachain.Common.Result.{Result, ok, err, ◌>>=◌}

-- `fixnum::ArithmeticError`: `Overflow` is the only case that the repository names.
pub data ArithmeticError : Type 0 where
  overflow : ArithmeticError
  unnamed : ℕ → ArithmeticError

abbrev pub Checked : Type 0 → Type 0
Checked A = Result ArithmeticError A

-- 10 ^ FIXED_PRECISION, the bits of 1.0; `balance!(1)` is the same number.
abbrev pub one : ℕ
one = 1_000_000_000_000_000_000

-- `i128::MAX`
abbrev pub max_bits : ℕ
max_bits = 170_141_183_460_469_231_731_687_303_715_884_105_727

-- The calls of `fixnum`, on bits. `rmul`, `rdiv` and `rsqrt` are those with `Floor`; `from_int` is
-- `Fixed::try_from` of an integer that is not negative, and `cmul` the product with one.
pub record Fixnum : Type 0 where
  pub cadd : ℤ → ℤ → Checked ℤ
  pub csub : ℤ → ℤ → Checked ℤ
  pub rmul : ℤ → ℤ → Checked ℤ
  pub rdiv : ℤ → ℤ → Checked ℤ
  pub rsqrt : ℤ → Checked ℤ
  pub from_int : ℕ → Checked ℤ
  pub cmul : ℤ → ℕ → Checked ℤ
  pub rounding_to_i64 : ℤ → ℤ

-- The result, if it fits the bits.
abbrev pub fitting : ℕ → Checked ℤ
fitting n = if leb n max_bits then ok (pos n) else err overflow

-- Sums are exact and quotients and products are rounded down, or the call overflows. A difference
-- that is not negative is exact.
pub record IsFloored (fx : Fixnum) : Type 0 where
  pub cadd_lem : (a b : ℕ) → fx.cadd (pos a) (pos b) ≡ fitting (a + b)
  pub csub_lem : (a b : ℕ) → b ≤ a → a ≤ max_bits → fx.csub (pos a) (pos b) ≡ ok (pos (a - b))
  pub rmul_lem : (a b : ℕ) → fx.rmul (pos a) (pos b) ≡ fitting (a * b / one)
  pub rdiv_lem : (a b : ℕ) → 0 < b → fx.rdiv (pos a) (pos b) ≡ fitting (a * one / b)
  pub from_int_lem : (n : ℕ) → fx.from_int n ≡ fitting (n * one)
  pub rdiv_zero : (a : ℤ) → (e : ArithmeticError) × (fx.rdiv a (pos 0) ≡ err e)

-- `FixedWrapper`: a checked `Fixed`, by its bits.
abbrev pub FixedWrapper : Type 0
FixedWrapper = Checked ℤ

-- `impl From<u128> for FixedWrapper`: the number is taken for the bits.
abbrev pub from_u128 : ℕ → FixedWrapper
from_u128 n = if leb n max_bits then ok (pos n) else err overflow

-- A difference of `u128` values wraps in a release build.
abbrev pub wrapping_sub : ℕ → ℕ → ℕ
wrapping_sub a b = (a + 2 ^ 128 - b) % 2 ^ 128

-- `PartialOrd`: an error is not comparable.
abbrev pub less : FixedWrapper → FixedWrapper → Bool
less (ok a) (ok b) = ltb_ℤ a b
less (ok a) (err e) = false
less (err e) w = false

-- `try_into_balance`
abbrev pub to_u128 : ℤ → Checked ℕ
to_u128 (pos n) = ok n
to_u128 (negsuc n) = err overflow

abbrev pub try_into_balance : FixedWrapper → Checked ℕ
try_into_balance w = w >>= to_u128

-- `zip(&lhs, &rhs).and_then(...)`
abbrev pub both : (ℤ → ℤ → Checked ℤ) → FixedWrapper → FixedWrapper → FixedWrapper
both f v w = v >>= λ a. w >>= λ b. f a b

module _ (fx : Fixnum) where
  abbrev pub add : FixedWrapper → FixedWrapper → FixedWrapper
  add = both fx.cadd

  abbrev pub sub : FixedWrapper → FixedWrapper → FixedWrapper
  sub = both fx.csub

  abbrev pub mul : FixedWrapper → FixedWrapper → FixedWrapper
  mul = both fx.rmul

  abbrev pub div : FixedWrapper → FixedWrapper → FixedWrapper
  div = both fx.rdiv

  abbrev pub sqrt_accurate : FixedWrapper → FixedWrapper
  sqrt_accurate w = w >>= fx.rsqrt

  abbrev pub or_overflow : FixedWrapper → FixedWrapper
  or_overflow (ok a) = ok a
  or_overflow (err e) = err overflow

  abbrev pub multiply_and_sqrt : FixedWrapper → FixedWrapper → FixedWrapper
  multiply_and_sqrt v w = or_overflow (mul (sqrt_accurate v) (sqrt_accurate w))
