-- ===== src/MockSource/Product.antt =====
-- pallets/mock-liquidity-source/src/lib.rs: an output leaves the product of the reserves at least as
-- large as it was.
use sora2_parachain.Prelude.{subst, sym, ℕ, ◌+◌, ◌-◌, ◌*◌, ◌/◌, ◌≤◌, ◌<◌, ◌≡◌, ℤ, pos, arith}
use native.Mathlib.Nat.{
  div-mul-le_self, mul-le-mul_left, mul-le-mul_right, le_of_mul-le-mul_right, le_trans,
}
use sora2_parachain.Common.Result.{ok}
use sora2_parachain.Common.Fixed.{Fixnum, IsFloored, one, max_bits}
use sora2_parachain.Common.SwapAmounts.{SwapOutcome, outcome}
use sora2_parachain.MockSource.{get_target_amount_out, get_base_amount_out}

left-over : (x d z out : ℕ) → out * (x + d) ≤ (z + out) * d → x * (z + out) ≤ (x + d) * z
left-over x d z out h = omega arith

module _ (x y d out : ℕ) where
  out-le : 0 < x + d → out * (x + d) ≤ y * d → out ≤ y
  out-le h le = le_of_mul-le-mul_right {n = y} {k = x + d} (omega arith) h

  product-le : 0 < x + d → out * (x + d) ≤ y * d → x * y ≤ (x + d) * (y - out)
  product-le h le =
      let small = out-le h le in
      let same : y - out + out ≡ y = omega arith in
      subst (λ n. x * n ≤ (x + d) * (y - out)) same
        (left-over x d (y - out) out (subst (λ n. out * (x + d) ≤ n * d) (sym same) le))

rounded-le : (m n k : ℕ) → m * n / one * one / k * k ≤ m * n
rounded-le m n k = omega (arith, div-mul-le_self (m * n / one * one) k, div-mul-le_self (m * n) one)

fee-le : (n f : ℕ) → f ≤ one → n * f / one ≤ n
fee-le n f h =
    le_of_mul-le-mul_right {n = n} {k = one}
      (omega (arith, div-mul-le_self (n * f) one, mul-le-mul_left n h)) (omega arith)

module _ (fx : Fixnum) (laws : IsFloored fx) where
  open laws use {cadd_lem, csub_lem, rmul_lem, rdiv_lem, rdiv_zero}

  target-inv :
      (d x y f : ℕ) {o : SwapOutcome ℤ}
      → d ≤ max_bits
      → d * f / one ≤ d
      → get_target_amount_out fx (pos f) (pos d) (pos x) (pos y) ≡ ok o
      → (0 < x)
        × (o
            ≡ outcome
                (pos (y * (d - d * f / one) / one * one / (x + (d - d * f / one))))
                (pos (d * f / one)))
  unfolding get_target_amount_out
  target-inv d x y f high part h =
      let k = d - d * f / one in
      ground (
        arith,
        rmul_lem d f,
        csub_lem d (d * f / one),
        rmul_lem y k,
        cadd_lem x k,
        rdiv_lem (y * k / one) (x + k),
      )

  base-inv :
      (d x y f : ℕ) {o : SwapOutcome ℤ}
      → f ≤ one
      → get_base_amount_out fx (pos f) (pos d) (pos x) (pos y) ≡ ok o
      → (0 < y)
        × (o
            ≡ outcome
                (pos (d * x / one * one / (y + d) - d * x / one * one / (y + d) * f / one))
                (pos (d * x / one * one / (y + d) * f / one)))
  unfolding get_base_amount_out
  base-inv d x y f small h =
      let out = d * x / one * one / (y + d) in
      let part : out * f / one ≤ out = fee-le out f small in
      ground (
        arith,
        rmul_lem d x,
        cadd_lem y d,
        rdiv_lem (d * x / one) (y + d),
        rmul_lem out f,
        csub_lem out (out * f / one),
      )

  -- With a fee that is a fraction from zero to one and an input that is a `Fixed`, an output of a
  -- target for the base asset is at most its reserve, and the product of both reserves after the trade
  -- is not smaller than before it; the fee is that of the input, rounded down.
  pub get_target_amount_out-product :
      (d x y f : ℕ) {o : SwapOutcome ℤ}
      → d ≤ max_bits
      → f ≤ one
      → get_target_amount_out fx (pos f) (pos d) (pos x) (pos y) ≡ ok o
      → (out : ℕ) × (o ≡ outcome (pos out) (pos (d * f / one)))
        × (out ≤ y)
        × (x * y ≤ (x + d) * (y - out))
  get_target_amount_out-product d x y f high small h =
      let part : d * f / one ≤ d = fee-le d f small in
      let k = d - d * f / one in
      let (hx, e) = target-inv d x y f high part h in
      let out = y * k / one * one / (x + k) in
      let bound = rounded-le y k (x + k) in
      let less_in : k ≤ d = omega arith in
      (
        out,
        e,
        out-le x y k out (omega arith) bound,
        le_trans (product-le x y k out (omega arith) bound)
            (mul-le-mul_right (y - out) (omega (arith, less_in))),
      )

  -- The same for an output of the base asset for a target, where the fee is taken of the output.
  pub get_base_amount_out-product :
      (d x y f : ℕ) {o : SwapOutcome ℤ}
      → f ≤ one
      → get_base_amount_out fx (pos f) (pos d) (pos x) (pos y) ≡ ok o
      → (out fee : ℕ) × (o ≡ outcome (pos out) (pos fee))
        × (out + fee ≤ x)
        × (x * y ≤ (x - (out + fee)) * (y + d))
  get_base_amount_out-product d x y f small h =
      let (hy, e) = base-inv d x y f small h in
      let whole = d * x / one * one / (y + d) in
      let part : whole * f / one ≤ whole = fee-le whole f small in
      let bound : whole * (y + d) ≤ x * d = omega (arith, rounded-le d x (y + d)) in
      let fits = out-le y x d whole (omega arith) bound in
      let kept = product-le y x d whole (omega arith) bound in
      let same : whole - whole * f / one + whole * f / one ≡ whole = omega arith in
      (whole - whole * f / one, whole * f / one, e, rw same fits, rw same (omega (arith, kept)))
