-- ===== src/LiquidityProxy/Shares.antt =====
-- pallets/liquidity-proxy/src/lib.rs: shares of a trade that together are not above the whole.
use sora2_parachain.Prelude.{ℕ, ◌-◌, ◌≤◌, ◌≡◌, List, [], ◌∷◌, map, arith, ℤ, pos}
use sora2_parachain.Common.Fixed.{one}
use sora2_parachain.Common.Sources.{SourceId}
use sora2_parachain.LiquidityProxy.GenericSplit.{zip}

-- The shares are not negative, and their sum is not above the budget.
abbrev pub WithinBudget : ℕ → List ℤ → Type 0
WithinBudget b [] = Unit {0}
WithinBudget b (z ∷ zs) = (p : ℕ) × (z ≡ pos p) × (p ≤ b) × WithinBudget (b - p) zs

abbrev pub IsPartial : List (SourceId × ℤ) → Type 0
IsPartial d = WithinBudget one (map (λ e. e.1) d)

pub WithinBudget-mono : (b c : ℕ) (zs : List ℤ) → b ≤ c → WithinBudget b zs → WithinBudget c zs
WithinBudget-mono b c [] h w = tt
WithinBudget-mono b c (z ∷ zs) h (p, e, k, rest) =
    (p, e, omega arith, WithinBudget-mono (b - p) (c - p) zs (omega arith) rest)

pub WithinBudget-zip :
    (b : ℕ) (ids : List SourceId) (zs : List ℤ)
    → WithinBudget b zs
    → WithinBudget b (map (λ e. e.1) (zip ids zs))
WithinBudget-zip b [] zs w = tt
WithinBudget-zip b (id ∷ ids) [] w = tt
WithinBudget-zip b (id ∷ ids) (z ∷ zs) (p, e, k, rest) =
    (p, e, k, WithinBudget-zip (b - p) ids zs rest)
