-- ===== src/LiquidityProxy/Algo/Best.antt =====
-- pallets/liquidity-proxy/src/algo.rs: the distribution that `find_distribution` returns.
use sora2_parachain.Prelude.{
  ℕ, suc, ◌*◌, ◌≤◌, ◌<◌, ◌≡◌, ◌∙◌, refl, sym, ap, subst, Bool, true, some, List, [], ◌∷◌, map,
  arith, length, get_or, All, ℤ, pos,
}
use sora2_parachain.Common.Result.{ok}
use sora2_parachain.Common.Fixed.{Fixnum, IsFloored, max_bits, one}
use sora2_parachain.LiquidityProxy.Algo.{
  fill_rows, rows_reach, distribution_of, find_with, find_distribution,
}
use sora2_parachain.LiquidityProxy.Algo.Cell.{amount}
use sora2_parachain.LiquidityProxy.Algo.Shares.{fraction}
use sora2_parachain.LiquidityProxy.Algo.Optimal.{sum, total, IsBounded, amount_bound}
use sora2_parachain.LiquidityProxy.Algo.Tables.{zeros, first_amount, HasRange, IsBestSplit, found}

length-map-pos : (xs : List ℕ) → length (map pos xs) ≡ length xs
length-map-pos [] = refl
length-map-pos (x ∷ xs) = ap suc (length-map-pos xs)

module _ (fx : Fixnum) (laws : IsFloored fx) (inversed : Bool) where
  whole_parts : (n : ℕ) → n * one ≤ max_bits → fx.from_int n ≡ ok (pos (n * one))
  whole_parts n h = laws.from_int_lem n ∙ ground arith

  found_with :
      (first : List ℤ) (rows : List (List ℤ)) (n : ℕ) {d : List ℤ × ℤ}
      → suc n * one ≤ max_bits
      → rows_reach (suc n) rows ≡ true
      → distribution_of fx inversed
          (suc n)
          (pos (suc n * one))
          (fill_rows fx inversed (suc n) rows (pos 0 ∷ first) (zeros (suc (suc n)) ∷ []))
        ≡ d
      → find_with fx inversed first rows (suc n) (fx.from_int (suc n)) ≡ some d
  found_with first rows n h reach same =
      ap (find_with fx inversed first rows (suc n)) (whole_parts (suc n) h)
      ∙ rw reach (ap some same)

  -- Let the samples be amounts from 0 to `m`, in rows that are as long as the first one, of `s`
  -- parts. If no sum overflows, `find_distribution` returns the shares, rounded down, of a split of
  -- the `s` parts between the exchanges, with its sum, and no other split of `s` parts has a better
  -- sum: a larger one, or a smaller one in the inversed search.
  pub find_distribution-best :
      (m : ℕ) (first : List ℕ) (rows : List (List ℕ))
      → 0 < length first
      → length first * one ≤ max_bits
      → m ≤ max_bits
      → HasRange inversed (length (first ∷ rows) * m)
      → All (IsBounded m) (first ∷ rows)
      → rows_reach (length first) (map (map pos) rows) ≡ true
      → (ws : List ℕ) × (sum ws ≡ length first)
        × (length ws ≡ length (first ∷ rows))
        × (find_distribution fx inversed (map (map pos) (first ∷ rows))
            ≡ some (map (fraction (length first)) ws, pos (total (first ∷ rows) ws)))
        × IsBestSplit inversed (length first) (first ∷ rows) ws
  unfolding find_distribution
  find_distribution-best m [] rows positive h small range bounded reach = absurd (omega arith)
  find_distribution-best m (x ∷ xs) rows positive h small range bounded reach =
      let s = suc (length xs) in
      let below : (j : ℕ) → j ≤ s → get_or (0 ∷ x ∷ xs) j 0 ≤ max_bits = λ j le.
        let b : amount (x ∷ xs) j ≤ m = amount_bound m (x ∷ xs) bounded.0 j in
        rw (first_amount (x ∷ xs) j) (omega arith) in
      let (ws, e, len, same, best) =
        found inversed s m fx laws positive h (x ∷ xs) rows bounded below range in
      let result = some (map (fraction s) ws, pos (total ((x ∷ xs) ∷ rows) ws)) in
      (
        ws,
        e,
        len,
        subst
            (λ n.
              find_with fx inversed (map pos (x ∷ xs)) (map (map pos) rows) (suc n)
                (fx.from_int (suc n))
              ≡ result)
            (sym (length-map-pos xs))
            (found_with (map pos (x ∷ xs)) (map (map pos) rows) (length xs) h reach same),
        best,
      )
