-- ===== src/LiquidityProxy/GenericSplit/Portions.antt =====
-- pallets/liquidity-proxy/src/algo.rs: whatever the samples are, the shares that
-- `find_distribution` returns are those of a part of the trade.
use sora2_parachain.Prelude.{
  ℕ, zero, suc, ◌+◌, ◌-◌, ◌*◌, ◌/◌, ◌≤◌, ◌<◌, ◌≡◌, ◌∙◌, refl, sym, subst, Bool, some, none, List,
  [], ◌∷◌, arith, get_or, replicate, length, ℤ, pos, inl, inr, Bool-cases,
}
use native.Mathlib.Nat.{div-mul-le_self, le_of_mul-le-mul_right}
use sora2_parachain.Common.Result.{ok, err, Result-cases}
use sora2_parachain.Common.Fixed.{Fixnum, IsFloored, Checked, one, max_bits}
use sora2_parachain.LiquidityProxy.Algo.{
  Cell, is_better, try_sum, try_splits, fill_cell, fill_cells, fill_row, fill_rows, distribute,
  with_best, distribution_of, find_with, find_distribution, rows_reach, nothing_distributed,
}
use sora2_parachain.LiquidityProxy.Algo.Shares.{distribute_step}
use sora2_parachain.LiquidityProxy.Shares.{WithinBudget, WithinBudget-mono}

-- A row of `foreign`: no cell leaves more parts than it has.
abbrev LeavesLess : List ℕ → Type 0
LeavesLess lefts = (j : ℕ) → get_or lefts j 0 ≤ j

abbrev AllLeaveLess : List (List ℕ) → Type 0
AllLeaveLess [] = Unit {0}
AllLeaveLess (lefts ∷ rows) = LeavesLess lefts × AllLeaveLess rows

try_sum-le :
    (inversed : Bool) (r : Checked ℤ) (left j : ℕ) (c : Cell)
    → left ≤ j
    → c.1 ≤ j
    → (try_sum inversed r left c).1 ≤ j
try_sum-le inversed (err e) left j c h k = k
try_sum-le inversed (ok tmp) left j (best, parts) h k =
    elim (Bool-cases (is_better inversed tmp best)) [ inl e ↦ rw e h | inr e ↦ rw e k ]

module _ (fx : Fixnum) (inversed : Bool) where
  try_splits-le :
      (prev row : List ℤ) (j rounds k : ℕ) (c : Cell)
      → c.1 ≤ j
      → (try_splits fx inversed prev row j rounds k c).1 ≤ j
  unfolding try_splits
  try_splits-le prev row j zero k c h = h
  try_splits-le prev row j (suc rounds) k c h =
      let r = fx.cadd (get_or prev (j - k - 1) (pos 0)) (get_or row k (pos 0)) in
      try_splits-le prev row j rounds (suc k) (try_sum inversed r (j - k - 1) c)
        (try_sum-le inversed r (j - k - 1) j c (omega arith) h)

  fill_cells-le :
      (prev row : List ℤ) (rounds j i : ℕ)
      → get_or (fill_cells fx inversed prev row rounds j).1 i 0 ≤ i + j
  unfolding fill_cells fill_cell
  fill_cells-le prev row zero j i = omega arith
  fill_cells-le prev row (suc rounds) j zero =
      let h = try_splits-le prev row j j 0 (get_or prev j (pos 0), j) (omega arith) in omega arith
  fill_cells-le prev row (suc rounds) j (suc i) =
      let h = fill_cells-le prev row rounds (suc j) i in omega arith

  fill_row-LeavesLess : (s : ℕ) (prev row : List ℤ) → LeavesLess (fill_row fx inversed s prev row).1
  unfolding fill_row
  fill_row-LeavesLess s prev row zero = omega arith
  fill_row-LeavesLess s prev row (suc j) = let h = fill_cells-le prev row s 1 j in omega arith

  fill_rows-AllLeaveLess :
      (s : ℕ) (rows : List (List ℤ)) (prev : List ℤ) (foreign : List (List ℕ))
      → AllLeaveLess foreign
      → AllLeaveLess (fill_rows fx inversed s rows prev foreign).1
  unfolding fill_rows
  fill_rows-AllLeaveLess s [] prev foreign h = h
  fill_rows-AllLeaveLess s (row ∷ rows) prev foreign h =
      let (bests, lefts) = fill_row fx inversed s prev row in
      fill_rows-AllLeaveLess s rows bests (lefts ∷ foreign) (fill_row-LeavesLess s prev row, h)

-- One round of the last loop keeps the budget: `b` is what the shares so far take of it.
budget_step :
    (s b p left : ℕ)
    → left ≤ p
    → b * s + p * one ≤ one * s
    → (b + (p - left) * one / s) * s + left * one ≤ one * s
budget_step s b p left h k =
    let f = (p - left) * one / s in
    let whole : f * s ≤ (p - left) * one = div-mul-le_self ((p - left) * one) s in grind arith

with_best-WithinBudget :
    (best : ℤ) (r : Checked (List ℤ))
    → ((d : List ℤ) → r ≡ ok d → WithinBudget one d)
    → WithinBudget one (with_best best r).0
with_best-WithinBudget best (ok d) h = h d refl
with_best-WithinBudget best (err e) h = tt

module _ (fx : Fixnum) (laws : IsFloored fx) (s : ℕ) (positive : 0 < s)
    (fits : s * one ≤ max_bits) where
  distribute-WithinBudget :
      (foreign : List (List ℕ)) (p : ℕ) (acc : List ℤ) (b : ℕ) {d : List ℤ}
      → AllLeaveLess foreign
      → p ≤ s
      → WithinBudget b acc
      → b * s + p * one ≤ one * s
      → distribute fx (pos (s * one)) foreign p acc ≡ ok d
      → WithinBudget one d
  distribute-WithinBudget [] p acc b {d} all h w k same =
      unfold distribute in
      (let e : acc ≡ d = ground arith in
        subst (WithinBudget one) e (
          WithinBudget-mono b one acc
            (le_of_mul-le-mul_right {m = b} {n = one} {k = s} (omega arith) positive) w))
  distribute-WithinBudget (lefts ∷ foreign) p acc b all h w k same =
      let left = get_or lefts p 0 in
      let f = (p - left) * one / s in
      distribute-WithinBudget foreign left (pos f ∷ acc) (b + f) all.1
        (let l = all.0 p in omega arith)
        (f, refl, omega arith, subst (λ n. WithinBudget n acc) (omega arith) w)
        (budget_step s b p left (all.0 p) k)
        (sym (distribute_step fx laws s positive fits p lefts foreign acc h (all.0 p)) ∙ same)

module _ (fx : Fixnum) (laws : IsFloored fx) (inversed : Bool) where
  whole_parts : (n : ℕ) {t : ℤ} → fx.from_int n ≡ ok t → (t ≡ pos (n * one)) × (n * one ≤ max_bits)
  whole_parts n h = ground (arith, laws.from_int_lem n)

  distribution_of-WithinBudget :
      (s : ℕ) (r : List ℤ × List (List ℕ))
      → 0 < s
      → s * one ≤ max_bits
      → AllLeaveLess r.1
      → WithinBudget one (distribution_of fx inversed s (pos (s * one)) r).0
  distribution_of-WithinBudget s (bests, foreign) positive fits all =
      with_best-WithinBudget (get_or bests s (pos 0)) (distribute fx (pos (s * one)) foreign s [])
        λ d same.
          distribute-WithinBudget fx laws s positive fits foreign s [] 0 all (omega arith) tt
            (omega arith) same

  zeros-LeavesLess : (n : ℕ) → LeavesLess (replicate n 0)
  zeros-LeavesLess zero j = omega arith
  zeros-LeavesLess (suc n) zero = omega arith
  zeros-LeavesLess (suc n) (suc j) = let h = zeros-LeavesLess n j in omega arith

  find_with-WithinBudget :
      (first : List ℤ) (rows : List (List ℤ)) (s : ℕ) {t : ℤ} {d : List ℤ × ℤ}
      → fx.from_int s ≡ ok t
      → find_with fx inversed first rows s (ok t) ≡ some d
      → WithinBudget one d.0
  find_with-WithinBudget first rows zero {t} {d} e h =
      let same : nothing_distributed ≡ d = ground arith in subst (λ r. WithinBudget one r.0) same tt
  find_with-WithinBudget first rows (suc n) {t} {d} e h =
      let (total, fits) = whole_parts (suc n) e in
      let tables =
        fill_rows fx inversed (suc n) rows (pos 0 ∷ first) (replicate (suc (suc n)) 0 ∷ []) in
      let leave =
        fill_rows-AllLeaveLess fx inversed (suc n) rows (pos 0 ∷ first)
          (replicate (suc (suc n)) 0 ∷ []) (zeros-LeavesLess (suc (suc n)), tt) in
      let portions = distribution_of-WithinBudget (suc n) tables (omega arith) fits leave in
      elim (Bool-cases (rows_reach (suc n) rows)) [
        | inl reach ↦
            let found : some (distribution_of fx inversed (suc n) t tables) ≡ some d =
              rw reach at h in
            let same : distribution_of fx inversed (suc n) t tables ≡ d = ground arith in
            subst (λ r. WithinBudget one r.0) same
              (subst (λ (u : ℤ). WithinBudget one (distribution_of fx inversed (suc n) u tables).0)
                (sym total) portions)
        | inr short ↦ let none_found : none ≡ some d = rw short at h in absurd (ground arith)
      ]

  -- The shares that `find_distribution` returns are not negative and at most one together, whatever
  -- the samples are and whichever sums overflow.
  pub find_distribution-WithinBudget :
      (rows : List (List ℤ)) {d : List ℤ × ℤ}
      → find_distribution fx inversed rows ≡ some d
      → WithinBudget one d.0
  unfolding find_distribution
  find_distribution-WithinBudget [] {d} h =
      let same : nothing_distributed ≡ d = ground arith in subst (λ r. WithinBudget one r.0) same tt
  find_distribution-WithinBudget (first ∷ rows) {d} h =
      elim (Result-cases (fx.from_int (length first))) [
        | inl (t, e) ↦ find_with-WithinBudget first rows (length first) e (rw e at h)
        | inr (x, e) ↦
            let found : some nothing_distributed ≡ some d = rw e at h in
            let same : nothing_distributed ≡ d = ground arith in
            subst (λ r. WithinBudget one r.0) same tt
      ]
