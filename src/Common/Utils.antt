-- ===== src/Common/Utils.antt =====
-- common/src/utils.rs: evenly spaced amounts, basis points, and the filter of liquidity sources.
use sora2_parachain.Prelude.{
  Eq, ◌⊎◌, conjunction_iff, ℕ, zero, suc, ◌-◌, ◌*◌, ◌≡◌, ◌↔◌, refl, Bool, true, false, not, ◌&&◌,
  Option, none, some, List, [], ◌∷◌, ◌++◌, leb, nat_eq, nat_eq_iff, get_elem?, replicate,
  if◌then◌else◌, ℤ, pos, ltb_ℤ, arith, Bool-cases, inl, inr, ap,
}
use sora2_parachain.Common.Result.{ok, err}
use sora2_parachain.Common.Fixed.{Fixnum, FixedWrapper, one, from_u128, add, sub, div}
use sora2_parachain.Common.Primitives.{
  FilterMode, disabled, forbid_selected, allow_selected, LiquiditySourceId,
}

unfoldable pub in_basis_points_range : ℕ → Bool
in_basis_points_range value = leb value 10000

pub data IntervalEndpoints : Type 0 where
  no_endpoints left_endpoint right_endpoint both_endpoints : IntervalEndpoints

abbrev pub cons_checked : FixedWrapper → Option (List ℤ) → Option (List ℤ)
cons_checked (ok x) (some xs) = some (x ∷ xs)
cons_checked (ok x) none = none
cons_checked (err e) xs = none

abbrev pub then_last : ℤ → Option (List ℤ) → Option (List ℤ)
then_last b (some xs) = some (xs ++ (b ∷ []))
then_last b none = none

-- Two fixed-point numbers have the same bits.
abbrev pub same_bits : ℤ → ℤ → Bool
same_bits a b = not (ltb_ℤ a b) && not (ltb_ℤ b a)

-- `none` is the panic of an `unwrap`.
module _ (fx : Fixnum) where
  -- The values for `x` from `n - rounds + 1` to `n`.
  unfoldable pub linspace_from : ℤ → ℤ → ℕ → ℕ → ℕ → Option (List ℤ)
  linspace_from a b n zero x = some []
  linspace_from a b n (suc rounds) x =
      cons_checked
        (add fx (ok a) (
          div fx (sub fx (ok b) (ok a))
            (div fx (add fx (from_u128 (n * one)) (ok (pos one))) (from_u128 (x * one)))))
        (linspace_from a b n rounds (suc x))

  unfoldable pub linspace_inner : ℤ → ℤ → ℕ → Option (List ℤ)
  unfolding linspace_from
  linspace_inner a b n = linspace_from a b n n 1

  abbrev pub linspace_between : ℤ → ℤ → ℕ → IntervalEndpoints → Option (List ℤ)
  linspace_between a b n no_endpoints = linspace_inner a b n
  linspace_between a b n left_endpoint = cons_checked (ok a) (linspace_inner a b (n - 1))
  linspace_between a b n right_endpoint = then_last b (linspace_inner a b (n - 1))
  linspace_between a b n both_endpoints =
      if nat_eq n 1
      then some (b ∷ [])
      else cons_checked (ok a) (then_last b (linspace_inner a b (n - 2)))

  unfoldable pub linspace : ℤ → ℤ → ℕ → IntervalEndpoints → Option (List ℤ)
  unfolding linspace_inner
  linspace a b zero ends = some []
  linspace a b (suc n) ends =
      if same_bits a b then some (replicate (suc n) a) else linspace_between a b (suc n) ends

pub record LiquiditySourceFilter (I : Type 0) : Type 0 where
  pub dex_id : ℕ
  pub selected : List I
  pub forbids_selected : Bool

module _ {I : Type 0} where
  unfoldable pub empty : ℕ → LiquiditySourceFilter I
  empty dex_id = record { dex_id = dex_id; selected = []; forbids_selected = true }

  unfoldable pub new : ℕ → List I → Bool → LiquiditySourceFilter I
  new dex_id indices forbids = record {
    dex_id = dex_id;
    selected = indices;
    forbids_selected = forbids;
  }

  unfoldable pub with_forbidden : ℕ → List I → LiquiditySourceFilter I
  with_forbidden dex_id indices = record {
    dex_id = dex_id;
    selected = indices;
    forbids_selected = true;
  }

  unfoldable pub with_allowed : ℕ → List I → LiquiditySourceFilter I
  with_allowed dex_id indices = record {
    dex_id = dex_id;
    selected = indices;
    forbids_selected = false;
  }

  unfoldable pub with_mode : ℕ → FilterMode → List I → LiquiditySourceFilter I
  unfolding empty with_allowed with_forbidden
  with_mode dex_id disabled indices = empty dex_id
  with_mode dex_id allow_selected indices = with_allowed dex_id indices
  with_mode dex_id forbid_selected indices = with_forbidden dex_id indices

  unfoldable pub matches_dex_id : LiquiditySourceFilter I → ℕ → Bool
  matches_dex_id f dex_id = nat_eq f.dex_id dex_id

module _ {I : Type 0} where
  -- An index stands at some place of a list.
  abbrev pub Occurs : I → List I → Type 0
  Occurs x xs = (i : ℕ) × (get_elem? xs i ≡ some x)

  pub Occurs-here : (x : I) (xs : List I) → Occurs x (x ∷ xs)
  Occurs-here x xs = (0, refl)

  pub Occurs-there : (x y : I) (xs : List I) → Occurs x xs → Occurs x (y ∷ xs)
  Occurs-there x y xs (i, found) = (suc i, found)

  pub Occurs-empty : (x : I) → ¬ Occurs x []
  Occurs-empty x (i, found) = ground arith

  pub Occurs-cons : (x y : I) (xs : List I) → Occurs x (y ∷ xs) → (y ≡ x) ⊎ Occurs x xs
  Occurs-cons x y xs (zero, found) = inl (ground arith)
  Occurs-cons x y xs (suc i, found) = inr (i, found)

module _ {I : Type 0} ⦃e : Eq I⦄ where
  -- The loop over the selected indices.
  unfoldable pub matches_from : Bool → List I → I → Bool
  matches_from forbids [] index = forbids
  matches_from forbids (idx ∷ rest) index =
      if e.same idx index then not forbids else matches_from forbids rest index

  unfoldable pub matches_index : LiquiditySourceFilter I → I → Bool
  unfolding matches_from
  matches_index f index = matches_from f.forbids_selected f.selected index

  unfoldable pub matches : LiquiditySourceFilter I → LiquiditySourceId I → Bool
  unfolding matches_dex_id matches_index
  matches f id = matches_dex_id f id.dex_id && matches_index f id.liquidity_source_index

  abbrev pub IsAllowed : FilterMode → List I → I → Type 0
  IsAllowed disabled indices index = Unit {0}
  IsAllowed allow_selected indices index = Occurs index indices
  IsAllowed forbid_selected indices index = ¬ Occurs index indices

  Occurs-inversion : (x y : I) (xs : List I) → Occurs x (y ∷ xs) → e.same y x ≡ false → Occurs x xs
  Occurs-inversion x y xs (zero, found) differ = absurd (ground (arith, e.same_iff y x))
  Occurs-inversion x y xs (suc i, found) differ = (i, found)

  matches_from-found :
      (forbids : Bool) (indices : List I) (index : I)
      → Occurs index indices
      → matches_from forbids indices index ≡ not forbids
  unfolding matches_from
  matches_from-found forbids [] index occurs = absurd (Occurs-empty index occurs)
  matches_from-found forbids (idx ∷ rest) index occurs = elim (Bool-cases (e.same idx index)) [
    | inl same ↦ ground arith
    | inr differ ↦
        let later =
          matches_from-found forbids rest index (Occurs-inversion index idx rest occurs differ) in
        ground arith
  ]

  matches_from-missing :
      (forbids : Bool) (indices : List I) (index : I)
      → ¬ Occurs index indices
      → matches_from forbids indices index ≡ forbids
  unfolding matches_from
  matches_from-missing forbids [] index missing = refl
  matches_from-missing forbids (idx ∷ rest) index missing = elim (Bool-cases (e.same idx index)) [
    | inl same ↦ absurd (missing (0, ap some ((e.same_iff idx index).0 same)))
    | inr differ ↦
        let later =
          matches_from-missing forbids rest index (λ o. missing (Occurs-there index idx rest o)) in
        ground arith
  ]

  matches_from-only_found :
      (indices : List I) (index : I)
      → matches_from false indices index ≡ true
      → Occurs index indices
  unfolding matches_from
  matches_from-only_found [] index h = absurd (ground arith)
  matches_from-only_found (idx ∷ rest) index h = elim (Bool-cases (e.same idx index)) [
    | inl same ↦ (0, ap some ((e.same_iff idx index).0 same))
    | inr differ ↦ Occurs-there index idx rest (matches_from-only_found rest index (ground arith))
  ]

  pub with_mode-dex_id :
      (dex_id : ℕ) (mode : FilterMode) (indices : List I)
      → (with_mode dex_id mode indices).dex_id ≡ dex_id
  unfolding with_mode empty with_allowed with_forbidden
  with_mode-dex_id dex_id disabled indices = refl
  with_mode-dex_id dex_id allow_selected indices = refl
  with_mode-dex_id dex_id forbid_selected indices = refl

  matches_dex_id-with_mode :
      (dex_id : ℕ) (mode : FilterMode) (indices : List I) (d : ℕ)
      → (matches_dex_id (with_mode dex_id mode indices) d ≡ true) ↔ (dex_id ≡ d)
  unfolding matches_dex_id with_mode empty with_allowed with_forbidden
  matches_dex_id-with_mode dex_id disabled indices d = nat_eq_iff dex_id d
  matches_dex_id-with_mode dex_id allow_selected indices d = nat_eq_iff dex_id d
  matches_dex_id-with_mode dex_id forbid_selected indices d = nat_eq_iff dex_id d

  pub matches_index-with_mode :
      (dex_id : ℕ) (mode : FilterMode) (indices : List I) (index : I)
      → (matches_index (with_mode dex_id mode indices) index ≡ true) ↔ IsAllowed mode indices index
  unfolding matches_index with_mode empty with_allowed with_forbidden
  matches_index-with_mode dex_id disabled indices index = ((λ h. tt), (λ u. refl))
  matches_index-with_mode dex_id allow_selected indices index =
      (matches_from-only_found indices index, matches_from-found false indices index)
  matches_index-with_mode dex_id forbid_selected indices index = (
    (λ h o.
        (let found : matches_from true indices index ≡ false =
            matches_from-found true indices index o in
          absurd (ground arith))),
    matches_from-missing true indices index,
  )

  -- A filter built with a mode passes a source exactly when the source belongs to the filter's exchange and
  -- the mode allows its index: every index when the mode is disabled, the listed ones when it allows the
  -- selected, the others when it forbids the selected.
  pub matches-with_mode :
      (dex_id : ℕ) (mode : FilterMode) (indices : List I) (id : LiquiditySourceId I)
      → (matches (with_mode dex_id mode indices) id ≡ true)
        ↔ ((dex_id ≡ id.dex_id) × IsAllowed mode indices id.liquidity_source_index)
  unfolding matches
  matches-with_mode dex_id mode indices id =
      conjunction_iff (matches_dex_id (with_mode dex_id mode indices) id.dex_id)
        (matches_index (with_mode dex_id mode indices) id.liquidity_source_index)
        (matches_dex_id-with_mode dex_id mode indices id.dex_id)
        (matches_index-with_mode dex_id mode indices id.liquidity_source_index)
