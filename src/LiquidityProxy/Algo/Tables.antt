-- ===== src/LiquidityProxy/Algo/Tables.antt =====
-- pallets/liquidity-proxy/src/algo.rs: the tables of all rows, and the walk back through them.
use sora2_parachain.Prelude.{
  ℕ, zero, suc, ◌+◌, ◌-◌, ◌*◌, ◌≤◌, ◌<◌, ◌≡◌, ◌∙◌, refl, ap, subst, ◌⊎◌, inl, inr, Bool, true, List,
  [], ◌∷◌, ◌++◌, map, arith, length, get_or, replicate, All, ℤ, pos,
}
use sora2_parachain.Common.Result.{ok}
use sora2_parachain.Common.Fixed.{Fixnum, IsFloored, max_bits, one}
use sora2_parachain.LiquidityProxy.Algo.{fill_rows, distribute, distribution_of, with_best}
use sora2_parachain.LiquidityProxy.Algo.Cell.{NoBetter, amount, split_sum, get_or-map-pos}
use sora2_parachain.LiquidityProxy.Algo.Rows.{HasRoom, fill_row_lem}
use sora2_parachain.LiquidityProxy.Algo.Shares.{fraction, distribute_step}
use sora2_parachain.LiquidityProxy.Algo.Optimal.{
  sum, total, IsBounded, amount_bound, IsFilled, IsFilled-here, IsFilled-next,
}

append-nil : (xs : List ℤ) → xs ++ [] ≡ xs
append-nil [] = refl
append-nil (x ∷ xs) = ap (λ ys. x ∷ ys) (append-nil xs)

abbrev pub zeros : ℕ → List ℕ
zeros n = replicate n 0

zeros_at : (n p : ℕ) → get_or (zeros n) p 0 ≡ 0
zeros_at zero p = refl
zeros_at (suc n) zero = refl
zeros_at (suc n) (suc p) = zeros_at n p

pub first_amount : (first : List ℕ) (p : ℕ) → get_or (0 ∷ first) p 0 ≡ amount first p
first_amount first zero = refl
first_amount first (suc p) = refl

minus_zero : (p : ℕ) → p - 0 ≡ p
minus_zero p = omega arith

module _ (inversed : Bool) where
  -- The sums of a row do not overflow, or are not taken for smaller ones.
  abbrev pub HasRange : ℕ → Type 0
  HasRange top = (inversed ≡ true) ⊎ (top ≤ max_bits)

  smaller_range : (m n : ℕ) → m ≤ n → HasRange n → HasRange m
  smaller_range m n le (inl e) = inl e
  smaller_range m n le (inr h) = inr (omega arith)

  -- No split of `s` parts has a better sum than `ws`.
  abbrev pub IsBestSplit : ℕ → List (List ℕ) → List ℕ → Type 0
  IsBestSplit s rows ws =
      (vs : List ℕ)
      → sum vs ≡ s
      → length vs ≡ length rows
      → NoBetter inversed (total rows vs) (total rows ws)

  module _ (s m : ℕ) where
    room_for :
        (cells row : List ℕ) (top : ℕ)
        → ((j : ℕ) → j ≤ s → get_or cells j 0 ≤ top)
        → IsBounded m row
        → HasRange (top + m)
        → HasRoom inversed cells row s
    room_for cells row top below bounded range j p h le =
        let first : get_or cells p 0 ≤ top = below p (omega arith) in
        let second : amount row (j - p) ≤ m = amount_bound m row bounded (j - p) in
        smaller_range (split_sum cells row j p) (top + m) (omega arith) range

    module _ (fx : Fixnum) (laws : IsFloored fx) (positive : 0 < s)
        (small_enough : s * one ≤ max_bits) where
      fill_rows_lem :
          (rows : List (List ℕ)) (foreign : List (List ℕ)) (cells : List ℕ) (top : ℕ)
          → get_or cells 0 0 ≡ 0
          → ((j : ℕ) → j ≤ s → get_or cells j 0 ≤ max_bits)
          → ((j : ℕ) → j ≤ s → get_or cells j 0 ≤ top)
          → HasRange (top + length rows * m)
          → All (IsBounded m) rows
          → (bests : List ℕ) × (lefts : List (List ℕ)) × (fill_rows fx inversed s
                (map (map pos) rows)
                (map pos cells)
                foreign
              ≡ (map pos bests, lefts))
            × IsFilled fx inversed s cells rows foreign bests lefts
      unfolding fill_rows
      fill_rows_lem [] foreign cells top none_first small below range bounded =
          (cells, foreign, refl, IsFilled-here fx inversed s cells foreign)
      fill_rows_lem (row ∷ rows) foreign cells top none_first small below range (b, bounded) =
          let more = length rows * m in
          let (next, lefts, same, none_next, tried) =
            fill_row_lem inversed cells row fx laws s
              (room_for cells row top below b
                (smaller_range (top + m) (top + (suc (length rows)) * m) (omega arith) range))
              small none_first in
          let (bests, all_lefts, rest, filled) =
            fill_rows_lem rows (lefts ∷ foreign) next (top + m) none_next
              (λ j h. let t = tried j h in t.fits)
              (λ j h.
                let t = tried j h in
                let left = get_or lefts j 0 in
                let left_le : left ≤ j = t.left_le in
                let first : get_or cells left 0 ≤ top = below left (omega arith) in
                let second : amount row (j - left) ≤ m = amount_bound m row b (j - left) in
                let value : get_or next j 0 ≡ split_sum cells row j left = t.reached in omega arith)
              (smaller_range (top + m + length rows * m) (top + (suc (length rows)) * m)
                (omega arith) range)
              bounded in
          (
            bests,
            all_lefts,
            ap (λ r. fill_rows fx inversed s (map (map pos) rows) r.0 (r.1 ∷ foreign)) same ∙ rest,
            IsFilled-next fx inversed s laws positive small_enough cells row next lefts rows foreign
                bests all_lefts tried filled,
          )

      distribute-last :
          (p : ℕ) (acc : List ℤ)
          → p ≤ s
          → distribute fx (pos (s * one)) (zeros (suc s) ∷ []) p acc ≡ ok (fraction s p ∷ acc)
      unfolding distribute
      distribute-last p acc h =
          let none_left : get_or (zeros (suc s)) p 0 ≡ 0 = zeros_at (suc s) p in
          distribute_step fx laws s positive small_enough p (zeros (suc s)) [] acc h (omega arith)
          ∙ ap (λ n. distribute fx (pos (s * one)) [] n (fraction s (p - n) ∷ acc)) none_left
          ∙ ap (λ n. ok (fraction s n ∷ acc)) (minus_zero p)

      best_split :
          (first : List ℕ) (rows : List (List ℕ)) (best : ℕ) (ws : List ℕ)
          → best ≡ total (first ∷ rows) ws
          → ((p : ℕ) (vs : List ℕ)
              → s ≤ s
              → p + sum vs ≡ s
              → length vs ≡ length rows
              → NoBetter inversed (get_or (0 ∷ first) p 0 + total rows vs) best)
          → IsBestSplit s (first ∷ rows) ws
      best_split first rows best ws same h [] e len = absurd (omega arith)
      best_split first rows best ws same h (p ∷ vs) e len =
          let it = h p vs (omega arith) e (omega arith) in
          subst (λ n. NoBetter inversed (n + total rows vs) (total (first ∷ rows) ws))
            (first_amount first p)
            (subst (NoBetter inversed (get_or (0 ∷ first) p 0 + total rows vs)) same it)

      shares_of :
          {filled : List ℤ × List (List ℕ)} {bests : List ℤ} {lefts : List (List ℕ)}
          {shares : List ℤ} {v : ℕ} (best : ℤ)
          → best ≡ pos v
          → get_or bests s (pos 0) ≡ best
          → filled ≡ (bests, lefts)
          → distribute fx (pos (s * one)) lefts s [] ≡ ok shares
          → distribution_of fx inversed s (pos (s * one)) filled ≡ (shares, pos v)
      shares_of {filled} {bests} {lefts} {shares} {v} best is_best at same walk =
          ap (distribution_of fx inversed s (pos (s * one))) same
          ∙ ap (with_best (get_or bests s (pos 0))) walk
          ∙ ap (λ b. (shares, b)) (at ∙ is_best)

      pub found :
          (first : List ℕ) (rows : List (List ℕ))
          → All (IsBounded m) (first ∷ rows)
          → ((j : ℕ) → j ≤ s → get_or (0 ∷ first) j 0 ≤ max_bits)
          → HasRange (length (first ∷ rows) * m)
          → (ws : List ℕ) × (sum ws ≡ s)
            × (length ws ≡ length (first ∷ rows))
            × (distribution_of fx inversed s (pos (s * one)) (
                  fill_rows fx inversed s
                    (map (map pos) rows)
                    (map pos (0 ∷ first))
                    (zeros (suc s) ∷ []))
                ≡ (map (fraction s) ws, pos (total (first ∷ rows) ws)))
            × IsBestSplit s (first ∷ rows) ws
      found first rows (b, bounded) small range =
          let cells = 0 ∷ first in
          let below : (j : ℕ) → j ≤ s → get_or cells j 0 ≤ m =
            λ j h. rw (first_amount first j) (amount_bound m first b j) in
          let (bests, lefts, same, filled) =
            fill_rows_lem rows (zeros (suc s) ∷ []) cells m refl small below
              (smaller_range (m + length rows * m) (suc (length rows) * m) (omega arith) range)
              bounded in
          let (p, ws, e, len, value, walk) = filled.reached s (omega arith) in
          let reached : get_or bests s 0 ≡ amount first p + total rows ws =
            value ∙ ap (λ n. n + total rows ws) (first_amount first p) in
          (
            p ∷ ws,
            e,
            ap suc len,
            shares_of (pos (get_or bests s 0)) (ap pos reached) (get_or-map-pos bests s) same (
                walk []
                ∙ ap (distribute fx (pos (s * one)) (zeros (suc s) ∷ []) p)
                    (append-nil (map (fraction s) ws))
                ∙ distribute-last p (map (fraction s) ws) (omega arith)),
            best_split first rows (get_or bests s 0) (p ∷ ws) reached (filled.best s),
          )
