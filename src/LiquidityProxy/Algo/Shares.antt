-- ===== src/LiquidityProxy/Algo/Shares.antt =====
-- pallets/liquidity-proxy/src/algo.rs: the shares of the exchanges in a trade of `s` parts.
use sora2_parachain.Prelude.{
  ℕ, zero, suc, ◌-◌, ◌*◌, ◌/◌, ◌≤◌, ◌<◌, ◌≡◌, sym, ap, List, ◌∷◌, arith, get_or, ℤ, pos,
}
use native.Mathlib.Nat.{mul-div-mul_right, div-le_self, zero-div}
use sora2_parachain.Common.Result.{ok, ◌>>=◌}
use sora2_parachain.Common.Fixed.{Fixnum, IsFloored, one, max_bits}
use sora2_parachain.LiquidityProxy.Algo.{share, distribute}

-- The fraction of a trade of `s` parts, rounded down.
abbrev pub fraction : ℕ → ℕ → ℤ
fraction s w = pos (w * one / s)

module _ (fx : Fixnum) (laws : IsFloored fx) (s : ℕ) (positive : 0 < s)
    (fits : s * one ≤ max_bits) where
  open laws use {csub_lem, rdiv_lem}

  share_lem : (p l : ℕ) → l ≤ p → p ≤ s → share fx (pos (s * one)) p l ≡ ok (fraction s (p - l))
  share_lem p l h k =
      let w = p - l in
      let whole : p * one - l * one ≡ w * one = omega arith in
      let quotient : w * one * one / (s * one) ≡ w * one / s =
        mul-div-mul_right (w * one) s (omega arith) in
      let below : w * one / s ≤ w * one = div-le_self (w * one) s in
      ground (
        arith,
        csub_lem (p * one) (l * one) (omega arith) (omega arith),
        rdiv_lem (p * one - l * one) (s * one) (omega arith),
      )

  pub distribute_step :
      (p : ℕ) (lefts : List ℕ) (foreign : List (List ℕ)) (acc : List ℤ)
      → p ≤ s
      → get_or lefts p 0 ≤ p
      → distribute fx (pos (s * one)) (lefts ∷ foreign) p acc
        ≡ distribute fx
            (pos (s * one))
            foreign
            (get_or lefts p 0)
            (fraction s (p - get_or lefts p 0) ∷ acc)
  unfolding distribute
  distribute_step zero lefts foreign acc h k =
      let none_left : get_or lefts 0 0 ≡ 0 = omega arith in
      rw none_left
        (ap (λ n. distribute fx (pos (s * one)) foreign 0 (pos n ∷ acc)) (sym (zero-div s)))
  distribute_step (suc p) lefts foreign acc h k =
      ap
        (λ r.
          r >>= λ part. distribute fx (pos (s * one)) foreign (get_or lefts (suc p) 0) (part ∷ acc))
        (share_lem (suc p) (get_or lefts (suc p) 0) k h)
