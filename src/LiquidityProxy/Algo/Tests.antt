-- ===== src/LiquidityProxy/Algo/Tests.antt =====
-- pallets/liquidity-proxy/src/algo.rs on concrete samples.
use sora2_parachain.Prelude.{
  ℕ, zero, suc, ◌≡◌, refl, inr, true, false, some, none, List, [], ◌∷◌, map, arith, length, All, ℤ,
  pos,
}
use sora2_parachain.Common.Fixed.Floored.{floored, floored-IsFloored}
use sora2_parachain.LiquidityProxy.Algo.{find_distribution}
use sora2_parachain.LiquidityProxy.Algo.Shares.{fraction}
use sora2_parachain.LiquidityProxy.Algo.Optimal.{sum, total, IsBounded}
use sora2_parachain.LiquidityProxy.Algo.Tables.{IsBestSplit}
use sora2_parachain.LiquidityProxy.Algo.Best.{find_distribution-best}

abbrev samples : List (List ℤ)
samples = map (map pos) ((3 ∷ 5 ∷ 6 ∷ []) ∷ (2 ∷ 4 ∷ 7 ∷ []) ∷ [])

samples_distribution :
    find_distribution floored false samples
    ≡ some (pos 666666666666666666 ∷ pos 333333333333333333 ∷ [], pos 7)
unfolding find_distribution floored
samples_distribution = refl

samples_inversed :
    find_distribution floored true samples ≡ some (pos 1000000000000000000 ∷ pos 0 ∷ [], pos 6)
unfolding find_distribution floored
samples_inversed = refl

short_row : find_distribution floored false ((pos 3 ∷ pos 5 ∷ []) ∷ (pos 2 ∷ []) ∷ []) ≡ none
unfolding find_distribution floored
short_row = refl

no_samples : find_distribution floored false [] ≡ some ([], pos 0)
unfolding find_distribution
no_samples = refl

first-IsBounded : IsBounded 7 (3 ∷ 5 ∷ 6 ∷ [])
first-IsBounded zero = omega arith
first-IsBounded (suc zero) = omega arith
first-IsBounded (suc (suc zero)) = omega arith
first-IsBounded (suc (suc (suc i))) = omega arith

second-IsBounded : IsBounded 7 (2 ∷ 4 ∷ 7 ∷ [])
second-IsBounded zero = omega arith
second-IsBounded (suc zero) = omega arith
second-IsBounded (suc (suc zero)) = omega arith
second-IsBounded (suc (suc (suc i))) = omega arith

samples-IsBounded : All (IsBounded 7) ((3 ∷ 5 ∷ 6 ∷ []) ∷ (2 ∷ 4 ∷ 7 ∷ []) ∷ [])
samples-IsBounded = (first-IsBounded, (second-IsBounded, tt))

find_distribution-best_example :
    (ws : List ℕ) × (sum ws ≡ 3)
    × (length ws ≡ 2)
    × (find_distribution floored false samples
        ≡ some (map (fraction 3) ws, pos (total ((3 ∷ 5 ∷ 6 ∷ []) ∷ (2 ∷ 4 ∷ 7 ∷ []) ∷ []) ws)))
    × IsBestSplit false 3 ((3 ∷ 5 ∷ 6 ∷ []) ∷ (2 ∷ 4 ∷ 7 ∷ []) ∷ []) ws
find_distribution-best_example =
    find_distribution-best floored floored-IsFloored false 7 (3 ∷ 5 ∷ 6 ∷ [])
      ((2 ∷ 4 ∷ 7 ∷ []) ∷ []) (omega arith) (omega arith) (omega arith) (inr (omega arith))
      samples-IsBounded refl
