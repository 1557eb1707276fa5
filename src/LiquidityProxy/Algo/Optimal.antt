-- ===== src/LiquidityProxy/Algo/Optimal.antt =====
-- pallets/liquidity-proxy/src/algo.rs: `find_distribution` finds the best distribution, for amounts
-- that are not negative.
use sora2_parachain.Prelude.{
  ℕ, zero, suc, ◌+◌, ◌-◌, ◌*◌, ◌≤◌, ◌<◌, ◌≡◌, ◌∙◌, refl, sym, ap, subst, Bool, true, false, List,
  [], ◌∷◌, ◌++◌, map, arith, length, get_or, ℤ, pos,
}
use sora2_parachain.Common.Fixed.{Fixnum, IsFloored, max_bits, one}
use sora2_parachain.LiquidityProxy.Algo.{distribute}
use sora2_parachain.LiquidityProxy.Algo.Cell.{
  NoBetter, NoBetter-trans, NoBetter-refl, amount, IsTried,
}
use sora2_parachain.LiquidityProxy.Algo.Shares.{fraction, distribute_step}

abbrev pub sum : List ℕ → ℕ
sum [] = 0
sum (w ∷ ws) = w + sum ws

-- What the exchanges give together for `w` parts each.
abbrev pub total : List (List ℕ) → List ℕ → ℕ
total [] ws = 0
total (row ∷ rows) [] = 0
total (row ∷ rows) (w ∷ ws) = amount row w + total rows ws

-- No amount is above `m`.
abbrev pub IsBounded : ℕ → List ℕ → Type 0
IsBounded m row = (i : ℕ) → get_or row i 0 ≤ m

pub amount_bound : (m : ℕ) (row : List ℕ) → IsBounded m row → (w : ℕ) → amount row w ≤ m
amount_bound m row h zero = omega arith
amount_bound m row h (suc k) = h k

NoBetter-add :
    (inversed : Bool) (a b c : ℕ) → NoBetter inversed a b → NoBetter inversed (a + c) (b + c)
NoBetter-add true a b c h = omega arith
NoBetter-add false a b c h = omega arith

add-zero_at : (n : ℕ) → n ≡ n + 0
add-zero_at n = omega arith

add_swap : (a b c : ℕ) → a + (b + c) ≡ a + b + c
add_swap a b c = omega arith

no_parts : (ws : List ℕ) → length ws ≡ 0 → sum ws ≡ 0
no_parts [] e = refl
no_parts (w ∷ ws) e = omega arith

-- The tables after the rows of samples that follow a row of cells: each cell of the last row is the
-- best of the sums, and the shares that the tables lead to have that sum.
module _ (fx : Fixnum) (inversed : Bool) (s : ℕ) where
  pub record IsFilled (cells : List ℕ) (rows : List (List ℕ)) (foreign : List (List ℕ))
      (bests : List ℕ) (lefts : List (List ℕ)) : Type 0 where
    pub reached :
        (j : ℕ)
        → j ≤ s
        → (p : ℕ) × (ws : List ℕ) × (p + sum ws ≡ j)
          × (length ws ≡ length rows)
          × (get_or bests j 0 ≡ get_or cells p 0 + total rows ws)
          × ((acc : List ℤ)
              → distribute fx (pos (s * one)) lefts j acc
                ≡ distribute fx (pos (s * one)) foreign p (map (fraction s) ws ++ acc))
    pub best :
        (j p : ℕ) (ws : List ℕ)
        → j ≤ s
        → p + sum ws ≡ j
        → length ws ≡ length rows
        → NoBetter inversed (get_or cells p 0 + total rows ws) (get_or bests j 0)

  best-here :
      (cells : List ℕ) (j p : ℕ) (ws : List ℕ)
      → p + sum ws ≡ j
      → length ws ≡ 0
      → NoBetter inversed (get_or cells p 0 + total [] ws) (get_or cells j 0)
  best-here cells j p ws e len =
      let none_left : sum ws ≡ 0 = no_parts ws len in
      let same : p ≡ j = omega arith in
      subst (λ n. NoBetter inversed (get_or cells p 0 + 0) (get_or cells n 0)) same
        (subst (λ v. NoBetter inversed v (get_or cells p 0)) (add-zero_at (get_or cells p 0))
          (NoBetter-refl inversed (get_or cells p 0)))

  pub IsFilled-here :
      (cells : List ℕ) (foreign : List (List ℕ)) → IsFilled cells [] foreign cells foreign
  IsFilled-here cells foreign = record {
    reached = λ j h. (j, [], omega arith, refl, add-zero_at (get_or cells j 0), λ acc. refl);
    best = λ j p ws h. best-here cells j p ws;
  }

  best-next :
      (cells row next : List ℕ) (lefts : List ℕ) (rows : List (List ℕ)) (bests : List ℕ)
      → ((j : ℕ) → j ≤ s → IsTried inversed cells row j j (get_or next j 0) (get_or lefts j 0))
      → ((j p : ℕ) (ws : List ℕ)
          → j ≤ s
          → p + sum ws ≡ j
          → length ws ≡ length rows
          → NoBetter inversed (get_or next p 0 + total rows ws) (get_or bests j 0))
      → (j p : ℕ) (ws : List ℕ) → j ≤ s
      → p + sum ws ≡ j
      → length ws ≡ suc (length rows)
      → NoBetter inversed (get_or cells p 0 + total (row ∷ rows) ws) (get_or bests j 0)
  best-next cells row next lefts rows bests tried best j p [] h e len = absurd (omega arith)
  best-next cells row next lefts rows bests tried best j p (w ∷ ws) h e len =
      let q = p + w in
      let t = tried q (omega arith) in
      let parts : q - p ≡ w = omega arith in
      let here : NoBetter inversed (get_or cells p 0 + amount row w) (get_or next q 0) =
        subst (λ n. NoBetter inversed (get_or cells p 0 + amount row n) (get_or next q 0)) parts
          (t.best p (omega arith) (omega arith)) in
      subst (λ v. NoBetter inversed v (get_or bests j 0))
        (sym (add_swap (get_or cells p 0) (amount row w) (total rows ws)))
        (NoBetter-trans inversed (get_or cells p 0 + amount row w + total rows ws)
          (get_or next q 0 + total rows ws) (get_or bests j 0)
          (NoBetter-add inversed (get_or cells p 0 + amount row w) (get_or next q 0) (total rows ws)
            here)
          (best j q ws h (omega arith) (omega arith)))

  module _ (laws : IsFloored fx) (positive : 0 < s) (fits : s * one ≤ max_bits) where
    pub IsFilled-next :
        (cells row next lefts : List ℕ) (rows foreign : List (List ℕ)) (bests : List ℕ)
        (all_lefts : List (List ℕ))
        → ((j : ℕ) → j ≤ s → IsTried inversed cells row j j (get_or next j 0) (get_or lefts j 0))
        → IsFilled next rows (lefts ∷ foreign) bests all_lefts
        → IsFilled cells (row ∷ rows) foreign bests all_lefts
    IsFilled-next cells row next lefts rows foreign bests all_lefts tried f = record {
      reached = λ j h.
          let (q, ws, e, len, value, walk) = f.reached j h in
          let t = tried q (omega arith) in
          let p = get_or lefts q 0 in
          let left_le : p ≤ q = t.left_le in
          (
            p,
            (q - p) ∷ ws,
            omega arith,
            ap suc len,
            value
                ∙ ap (λ v. v + total rows ws) t.reached
                ∙ sym (add_swap (get_or cells p 0) (amount row (q - p)) (total rows ws)),
            λ acc.
                walk acc
                ∙ distribute_step fx laws s positive fits q lefts foreign
                    (map (fraction s) ws ++ acc) (omega arith) left_le,
          );
      best = λ j p ws. best-next cells row next lefts rows bests tried f.best j p ws;
    }
