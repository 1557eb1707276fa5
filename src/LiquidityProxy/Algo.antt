-- ===== src/LiquidityProxy/Algo.antt =====
-- pallets/liquidity-proxy/src/algo.rs: `find_distribution`, which splits a trade between exchanges.
-- Row i of the samples has what exchange i gives or takes for one part of the trade, for two, and so
-- on. `none` is the panic of an index that is out of bounds.
pub mod Cell
pub mod Rows
pub mod Shares
pub mod Optimal
pub mod Tables
pub mod Best
mod Tests
use sora2_parachain.Prelude.{
  ℕ, zero, suc, ◌+◌, ◌-◌, ◌*◌, Bool, true, false, ◌&&◌, Option, none, some, List, [], ◌∷◌, ltb, leb,
  if◌then◌else◌, length, get_or, replicate, ℤ, pos, ltb_ℤ,
}
use sora2_parachain.Common.Result.{Result, ok, err, ◌>>=◌}
use sora2_parachain.Common.Fixed.{Fixnum, Checked, one, from_u128, sub, div}

-- A cell of the tables: `accumulator[i][j]` and `foreign[i][j]`.
abbrev pub Cell : Type 0
Cell = ℤ × ℕ

abbrev pub is_better : Bool → ℤ → ℤ → Bool
is_better true tmp best = ltb_ℤ tmp best
is_better false tmp best = ltb_ℤ best tmp

-- One round of the loop over `k`, with the checked sum and the parts that are left to the others.
abbrev pub try_sum : Bool → Checked ℤ → ℕ → Cell → Cell
try_sum inversed (err e) left cell = cell
try_sum inversed (ok tmp) left (best, parts) =
    if is_better inversed tmp best then (tmp, left) else (best, parts)

-- The rows are as long as the first one at least, so that no index is out of bounds.
abbrev pub rows_reach : ℕ → List (List ℤ) → Bool
rows_reach s [] = true
rows_reach s (row ∷ rows) = leb s (length row) && rows_reach s rows

module _ (fx : Fixnum) (inversed : Bool) where
  open fx use {cadd}

  -- The loop over `k`: `rounds` rounds from `k` on.
  unfoldable pub try_splits : List ℤ → List ℤ → ℕ → ℕ → ℕ → Cell → Cell
  try_splits prev row j zero k cell = cell
  try_splits prev row j (suc rounds) k cell = try_splits prev row j rounds (suc k) (
      try_sum inversed (cadd (get_or prev (j - k - 1) (pos 0)) (get_or row k (pos 0))) (j - k - 1)
        cell)

  unfoldable pub fill_cell : List ℤ → List ℤ → ℕ → Cell
  fill_cell prev row j = try_splits prev row j j 0 (get_or prev j (pos 0), j)

  -- The loop over `j`: `rounds` cells from `j` on, as the two rows of the tables.
  unfoldable pub fill_cells : List ℤ → List ℤ → ℕ → ℕ → List ℤ × List ℕ
  fill_cells prev row zero j = ([], [])
  fill_cells prev row (suc rounds) j =
      let (best, left) = fill_cell prev row j in
      let (bests, lefts) = fill_cells prev row rounds (suc j) in (best ∷ bests, left ∷ lefts)

  unfoldable pub fill_row : ℕ → List ℤ → List ℤ → List ℤ × List ℕ
  fill_row s prev row = let (bests, lefts) = fill_cells prev row s 1 in (pos 0 ∷ bests, 0 ∷ lefts)

  -- The loop over `i`, from a row of `accumulator` and the rows of `foreign`, the last one first.
  unfoldable pub fill_rows : ℕ → List (List ℤ) → List ℤ → List (List ℕ) → List ℤ × List (List ℕ)
  fill_rows s [] prev foreign = (prev, foreign)
  fill_rows s (row ∷ rows) prev foreign =
      let (bests, lefts) = fill_row s prev row in fill_rows s rows bests (lefts ∷ foreign)

-- The last loop, over the rows of `foreign` from the last one. Nothing is left to do for the
-- exchanges before the one at which no parts are left: their share stays zero.
module _ (fx : Fixnum) (total_parts : ℤ) where
  abbrev pub share : ℕ → ℕ → Checked ℤ
  share parts_left left =
      div fx (sub fx (from_u128 (parts_left * one)) (from_u128 (left * one))) (ok total_parts)

  unfoldable pub distribute : List (List ℕ) → ℕ → List ℤ → Checked (List ℤ)
  distribute [] parts_left distribution = ok distribution
  distribute (lefts ∷ foreign) zero distribution = distribute foreign zero (pos 0 ∷ distribution)
  distribute (lefts ∷ foreign) (suc parts) distribution =
      share (suc parts) (get_or lefts (suc parts) 0) >>= λ part.
      distribute foreign (get_or lefts (suc parts) 0) (part ∷ distribution)

-- `default()`
abbrev pub nothing_distributed : List ℤ × ℤ
nothing_distributed = ([], pos 0)

abbrev pub with_best : ℤ → Checked (List ℤ) → List ℤ × ℤ
with_best best (ok distribution) = (distribution, best)
with_best best (err e) = nothing_distributed

module _ (fx : Fixnum) (inversed : Bool) where
  abbrev pub distribution_of : ℕ → ℤ → List ℤ × List (List ℕ) → List ℤ × ℤ
  distribution_of s total_parts (bests, foreign) =
      with_best (get_or bests s (pos 0)) (distribute fx total_parts foreign s [])

  -- What follows the first checks, for samples of `s` parts.
  abbrev pub find_with : List ℤ → List (List ℤ) → ℕ → Checked ℤ → Option (List ℤ × ℤ)
  find_with first rows s (err e) = some nothing_distributed
  find_with first rows zero (ok total_parts) = some nothing_distributed
  find_with first rows (suc s) (ok total_parts) =
      if rows_reach (suc s) rows
      then some (
          distribution_of (suc s) total_parts
            (fill_rows fx inversed (suc s) rows (pos 0 ∷ first) (replicate (suc (suc s)) 0 ∷ [])))
      else none

  unfoldable pub find_distribution : List (List ℤ) → Option (List ℤ × ℤ)
  unfolding fill_rows fill_row fill_cells fill_cell try_splits distribute
  find_distribution [] = some nothing_distributed
  find_distribution (first ∷ rows) =
      find_with first rows (length first) (fx.from_int (length first))
