-- ===== src/LiquidityProxy/Algo/Rows.antt =====
-- pallets/liquidity-proxy/src/algo.rs: a row of the tables, from the row before it.
use sora2_parachain.Prelude.{
  ℕ, zero, suc, ◌+◌, ◌≤◌, ◌<◌, ◌≡◌, ◌∙◌, refl, ap, subst, ◌⊎◌, Bool, true, List, [], ◌∷◌, map,
  arith, get_or, pos,
}
use sora2_parachain.Common.Fixed.{Fixnum, IsFloored, max_bits}
use sora2_parachain.LiquidityProxy.Algo.{fill_cells, fill_row}
use sora2_parachain.LiquidityProxy.Algo.Cell.{split_sum, IsTried, start-IsTried, fill_cell_lem}

module _ (inversed : Bool) (cells row : List ℕ) where
  -- Cell `j` of a row and of the parts that it leaves to the exchanges before.
  abbrev pub IsBestAt : List ℕ → List ℕ → ℕ → ℕ → Type 0
  IsBestAt bests lefts i j = IsTried inversed cells row j j (get_or bests i 0) (get_or lefts i 0)

  -- No sum of two cells that the row tries overflows, if it is to be large.
  abbrev pub HasRoom : ℕ → Type 0
  HasRoom s = (j p : ℕ) → j ≤ s → p ≤ j → (inversed ≡ true) ⊎ (split_sum cells row j p ≤ max_bits)

  module _ (fx : Fixnum) (laws : IsFloored fx) (s : ℕ) (room : HasRoom s)
      (small : (j : ℕ) → j ≤ s → get_or cells j 0 ≤ max_bits) where
    fill_cells_lem :
        (rounds j : ℕ)
        → j + rounds ≡ suc s
        → (bests lefts : List ℕ) × (fill_cells fx inversed (map pos cells) (map pos row) rounds j
            ≡ (map pos bests, lefts))
          × ((i : ℕ) → i < rounds → IsBestAt bests lefts i (i + j))
    unfolding fill_cells
    fill_cells_lem zero j e = ([], [], refl, λ i h. absurd (omega arith))
    fill_cells_lem (suc rounds) j e =
        let (w, l, same, tried) =
          fill_cell_lem inversed cells row j fx laws (λ p. room j p (omega arith))
            (small j (omega arith)) in
        let (bests, lefts, rest, all_tried) = fill_cells_lem rounds (suc j) (omega arith) in
        let prev = map pos cells in
        let samples = map pos row in
        (
          w ∷ bests,
          l ∷ lefts,
          ap
                (λ c.
                  let r = fill_cells fx inversed prev samples rounds (suc j) in
                  (c.0 ∷ r.0, c.1 ∷ r.1))
                same
              ∙ ap (λ r. (pos w ∷ r.0, l ∷ r.1)) rest,
          elim [
            | zero ↦ λ h. subst (λ n. IsTried inversed cells row n n w l) (omega arith) tried
            | suc i ↦ λ h. subst (IsBestAt bests lefts i) (omega arith) (all_tried i (omega arith))
          ],
        )

    pub fill_row_lem :
        get_or cells 0 0 ≡ 0
        → (bests lefts : List ℕ) × (fill_row fx inversed s (map pos cells) (map pos row)
            ≡ (map pos bests, lefts))
          × (get_or bests 0 0 ≡ 0)
          × ((j : ℕ) → j ≤ s → IsBestAt bests lefts j j)
    unfolding fill_row
    fill_row_lem none_first =
        let (bests, lefts, same, tried) = fill_cells_lem s 1 (omega arith) in
        (
          0 ∷ bests,
          0 ∷ lefts,
          ap (λ r. (pos 0 ∷ r.0, 0 ∷ r.1)) same,
          refl,
          elim [
            | zero ↦ λ h.
                subst (λ v. IsTried inversed cells row 0 0 v 0) none_first
                  (start-IsTried inversed cells row 0 (small 0 (omega arith)))
            | suc i ↦ λ h. subst (IsBestAt bests lefts i) (omega arith) (tried i (omega arith))
          ],
        )
