-- ===== src/Common/Fixed/Inversion.antt =====
-- common/src/fixed_wrapper.rs: what a checked operation on numbers that are not negative returned,
-- given what `fixnum` documents.
use sora2_parachain.Prelude.{ℕ, ◌+◌, ◌*◌, ◌/◌, ◌≤◌, ◌<◌, ◌≡◌, zero, suc, ℤ, pos, arith}
use sora2_parachain.Common.Result.{ok}
use sora2_parachain.Common.Fixed.{Fixnum, IsFloored, max_bits, one, from_u128}

pub from_u128-inv : (n : ℕ) {c : ℤ} → from_u128 n ≡ ok c → (c ≡ pos n) × (n ≤ max_bits)
from_u128-inv n h = ground arith

module _ (fx : Fixnum) (laws : IsFloored fx) where
  open laws use {cadd_lem, rmul_lem, rdiv_lem, rdiv_zero}

  pub cadd-inv :
      (a b : ℕ) {c : ℤ} → fx.cadd (pos a) (pos b) ≡ ok c → (c ≡ pos (a + b)) × (a + b ≤ max_bits)
  cadd-inv a b h = ground (arith, cadd_lem a b)

  pub rmul-inv :
      (a b : ℕ) {c : ℤ}
      → fx.rmul (pos a) (pos b) ≡ ok c
      → (c ≡ pos (a * b / one)) × (a * b / one ≤ max_bits)
  rmul-inv a b h = ground (arith, rmul_lem a b)

  pub rdiv-inv :
      (a b : ℕ) {c : ℤ}
      → fx.rdiv (pos a) (pos b) ≡ ok c
      → (0 < b) × (c ≡ pos (a * one / b)) × (a * one / b ≤ max_bits)
  rdiv-inv a zero h = let (e, z) = rdiv_zero (pos a) in absurd (ground arith)
  rdiv-inv a (suc b) h =
      (omega arith, ground (arith, rdiv_lem a (suc b)), ground (arith, rdiv_lem a (suc b)))
