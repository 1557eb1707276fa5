-- ===== src/LiquidityProxy/Algo/Cell.antt =====
-- pallets/liquidity-proxy/src/algo.rs: a cell of the tables has the best split of its parts between
-- an exchange and the ones before it, for amounts that are not negative.
use sora2_parachain.Prelude.{
  ℕ, zero, suc, ◌+◌, ◌-◌, ◌≤◌, ◌≡◌, ◌∙◌, refl, sym, ap, subst, ◌⊎◌, inl, inr, Bool, Bool-cases,
  true, false, List, [], ◌∷◌, map, arith, ltb, leb, get_or, pos,
}
use sora2_parachain.Common.Fixed.{Fixnum, IsFloored, fitting, max_bits}
use sora2_parachain.LiquidityProxy.Algo.{try_sum, try_splits, fill_cell}

-- `v` is not better than `best`.
abbrev pub NoBetter : Bool → ℕ → ℕ → Type 0
NoBetter true v best = best ≤ v
NoBetter false v best = v ≤ best

-- What an exchange gives for some parts, nothing for none.
abbrev pub amount : List ℕ → ℕ → ℕ
amount row zero = 0
amount row (suc k) = get_or row k 0

-- The sum of a split of `j` parts that leaves `left` to the exchanges before.
abbrev pub split_sum : List ℕ → List ℕ → ℕ → ℕ → ℕ
split_sum cells row j left = get_or cells left 0 + amount row (j - left)

pub get_or-map-pos : (xs : List ℕ) (i : ℕ) → get_or (map pos xs) i (pos 0) ≡ pos (get_or xs i 0)
get_or-map-pos [] i = refl
get_or-map-pos (x ∷ xs) zero = refl
get_or-map-pos (x ∷ xs) (suc i) = get_or-map-pos xs i

pub NoBetter-trans :
    (inversed : Bool) (u v w : ℕ)
    → NoBetter inversed u v
    → NoBetter inversed v w
    → NoBetter inversed u w
NoBetter-trans true u v w h k = omega arith
NoBetter-trans false u v w h k = omega arith

pub NoBetter-refl : (inversed : Bool) (v : ℕ) → NoBetter inversed v v
NoBetter-refl true v = omega arith
NoBetter-refl false v = omega arith

add-zero_at : (n : ℕ) → n ≡ n + 0
add-zero_at n = omega arith

-- The cell after the splits that leave `j - k` parts or more to the exchanges before.
pub record IsTried (inversed : Bool) (cells row : List ℕ) (j k v left : ℕ) : Type 0 where
  pub left_le : left ≤ j
  pub fits : v ≤ max_bits
  pub reached : v ≡ split_sum cells row j left
  pub best : (p : ℕ) → p ≤ j → j ≤ p + k → NoBetter inversed (split_sum cells row j p) v

try_sum-fitting :
    (inversed : Bool) (n v left old : ℕ)
    → v ≤ max_bits
    → (inversed ≡ true) ⊎ (n ≤ max_bits)
    → (w l : ℕ) × (try_sum inversed (fitting n) left (pos v, old) ≡ (pos w, l))
      × (w ≤ max_bits)
      × (NoBetter inversed v w)
      × (NoBetter inversed n w)
      × ((w ≡ n) × (l ≡ left) ⊎ (w ≡ v) × (l ≡ old))
try_sum-fitting true n v left old h room = elim (Bool-cases (ltb n v)) [
  | inl less ↦ (n, left, ground arith, ground arith, ground arith, ground arith, inl (refl, refl))
  | inr more ↦ (v, old, ground arith, ground arith, ground arith, ground arith, inr (refl, refl))
]
try_sum-fitting false n v left old h room = elim (Bool-cases (ltb v n)) [
  | inl less ↦ (n, left, ground arith, ground arith, ground arith, ground arith, inl (refl, refl))
  | inr more ↦ (v, old, ground arith, ground arith, ground arith, ground arith, inr (refl, refl))
]

module _ (inversed : Bool) (cells row : List ℕ) (j : ℕ) where
  sum_at : (k p : ℕ) → p + suc k ≡ j → split_sum cells row j p ≡ get_or cells p 0 + get_or row k 0
  sum_at k p e = let d : j - p ≡ suc k = omega arith in ap (λ n. get_or cells p 0 + amount row n) d

  -- All parts are left to the exchanges before.
  whole : get_or cells j 0 ≡ split_sum cells row j j
  whole =
      let none_here : j - j ≡ 0 = omega arith in
      add-zero_at (get_or cells j 0) ∙ ap (λ n. get_or cells j 0 + amount row n) (sym none_here)

  best_step :
      (k v left w p q : ℕ)
      → p + suc k ≡ j
      → IsTried inversed cells row j k v left
      → NoBetter inversed v w
      → NoBetter inversed (split_sum cells row j p) w
      → q ≤ j
      → j ≤ q + suc k
      → NoBetter inversed (split_sum cells row j q) w
  best_step k v left w p q e t old new le far = elim (Bool-cases (leb j (q + k))) [
    | inl near ↦
        NoBetter-trans inversed (split_sum cells row j q) v w (t.best q le (ground arith)) old
    | inr last ↦
        let same : p ≡ q = ground arith in
        subst (λ n. NoBetter inversed (split_sum cells row j n) w) same new
  ]

  IsTried-better :
      (k v left w l p : ℕ)
      → p + suc k ≡ j
      → IsTried inversed cells row j k v left
      → w ≤ max_bits
      → NoBetter inversed v w
      → NoBetter inversed (split_sum cells row j p) w
      → ((w ≡ split_sum cells row j p) × (l ≡ p) ⊎ (w ≡ v) × (l ≡ left))
      → IsTried inversed cells row j (suc k) w l
  IsTried-better k v left w l p e t h old new (inl (ew, el)) = record {
    left_le = omega arith;
    fits = h;
    reached = ew ∙ ap (split_sum cells row j) (sym el);
    best = λ q. best_step k v left w p q e t old new;
  }
  IsTried-better k v left w l p e t h old new (inr (ew, el)) = record {
    left_le = omega arith;
    fits = h;
    reached = ew ∙ t.reached ∙ ap (split_sum cells row j) (sym el);
    best = λ q. best_step k v left w p q e t old new;
  }

  pub start-IsTried :
      get_or cells j 0 ≤ max_bits → IsTried inversed cells row j 0 (get_or cells j 0) j
  start-IsTried small = record {
    left_le = omega arith;
    fits = small;
    reached = whole;
    best = λ p le far.
        subst (λ n. NoBetter inversed n (get_or cells j 0))
          (whole ∙ ap (split_sum cells row j) (omega arith))
          (NoBetter-refl inversed (get_or cells j 0));
  }

  module _ (fx : Fixnum) (laws : IsFloored fx) where
    open laws use {cadd_lem}
    open fx use {cadd}

    sum-fitting :
        (p k : ℕ)
        → p + suc k ≡ j
        → cadd (get_or (map pos cells) p (pos 0)) (get_or (map pos row) k (pos 0))
          ≡ fitting (split_sum cells row j p)
    sum-fitting p k e = rw (get_or-map-pos cells p, get_or-map-pos row k, cadd_lem, ← sum_at k p e)

    try_splits-IsTried :
        (rounds k v left : ℕ)
        → k + rounds ≡ j
        → ((p : ℕ) → p ≤ j → (inversed ≡ true) ⊎ (split_sum cells row j p ≤ max_bits))
        → IsTried inversed cells row j k v left
        → (w l : ℕ) × (try_splits fx inversed (map pos cells) (map pos row) j rounds k (pos v, left)
            ≡ (pos w, l))
          × IsTried inversed cells row j j w l
    unfolding try_splits
    try_splits-IsTried zero k v left e room t =
        (v, left, refl, subst (λ n. IsTried inversed cells row j n v left) (omega arith) t)
    try_splits-IsTried (suc rounds) k v left e room t =
        let p = j - k - 1 in
        let at : p + suc k ≡ j = omega arith in
        let (w, l, same, h, old, new, from) =
          try_sum-fitting inversed (split_sum cells row j p) v p left t.fits
            (room p (omega arith)) in
        let (w', l', result, done) =
          try_splits-IsTried rounds (suc k) w l (omega arith) room
            (IsTried-better k v left w l p at t h old new from) in
        (
          w',
          l',
          ap (try_splits fx inversed (map pos cells) (map pos row) j rounds (suc k))
                (ap (λ r. try_sum inversed r p (pos v, left)) (sum-fitting p k at) ∙ same)
              ∙ result,
          done,
        )

    -- The cell holds the best sum over all splits, and how many parts that split leaves.
    pub fill_cell_lem :
        ((p : ℕ) → p ≤ j → (inversed ≡ true) ⊎ (split_sum cells row j p ≤ max_bits))
        → get_or cells j 0 ≤ max_bits
        → (w l : ℕ) × (fill_cell fx inversed (map pos cells) (map pos row) j ≡ (pos w, l))
          × IsTried inversed cells row j j w l
    unfolding fill_cell
    fill_cell_lem room small =
        let start = get_or cells j 0 in
        let (w, l, same, done) =
          try_splits-IsTried j 0 start j (omega arith) room (start-IsTried small) in
        (
          w,
          l,
          ap (λ c. try_splits fx inversed (map pos cells) (map pos row) j j 0 (c, j))
                (get_or-map-pos cells j)
              ∙ same,
          done,
        )
