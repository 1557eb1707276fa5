-- ===== src/DexApi/Listing.antt =====
-- pallets/dex-api/src/lib.rs: which sources are listed for a trade.
use sora2_parachain.Prelude.{
  ℕ, eq_ℕ, ◌≡◌, ◌↔◌, refl, sym, ap, subst, ◌∙◌, true, List, [], ◌∷◌, Bool-cases, inl, inr, arith,
  conjunction_iff,
}
use sora2_parachain.Common.Result.{ok}
use sora2_parachain.Common.Storage.{contains_key}
use sora2_parachain.Common.Primitives.{FilterMode, LiquiditySourceType, eq_source}
use sora2_parachain.Common.Utils.{
  with_mode, matches_index, Occurs, Occurs-here, Occurs-there, Occurs-cons, Occurs-empty, IsAllowed,
  matches_index-with_mode, with_mode-dex_id,
}
use sora2_parachain.Common.Sources.{SourceId, SourceFilter}
use sora2_parachain.DexManager.{ensure_dex_exists}
use sora2_parachain.DexApi.{
  Env, source_id, can_exchange, is_available, available, get_supported_types,
  list_liquidity_sources,
}

-- The source is one of the exchange `dex_id` and stands in the list `ts` of the enabled types.
module _ {S : Type 0} (env : Env S) (filter : SourceFilter) (input output : ℕ) (s : S) where
  -- What the test of a listing passes.
  abbrev pub IsListed : List LiquiditySourceType → SourceId → Type 0
  IsListed ts id =
      (id.dex_id ≡ filter.dex_id)
      × Occurs id.liquidity_source_index ts
      × (is_available env filter input output s id.liquidity_source_index ≡ true)

  IsListed-there :
      (t : LiquiditySourceType) (ts : List LiquiditySourceType) (id : SourceId)
      → IsListed ts id
      → IsListed (t ∷ ts) id
  IsListed-there t ts id (e, o, h) = (e, Occurs-there id.liquidity_source_index t ts o, h)

  IsListed-available :
      (ts : List LiquiditySourceType) (id : SourceId)
      → Occurs id (available env filter input output s ts)
      → IsListed ts id
  unfolding available
  IsListed-available [] id o = absurd (Occurs-empty id o)
  IsListed-available (t ∷ ts) id o = elim (Bool-cases (is_available env filter input output s t)) [
    | inr differ ↦ IsListed-there t ts id (IsListed-available ts id (rw differ at o))
    | inl same ↦
        elim (Occurs-cons id (source_id filter.dex_id t) (available env filter input output s ts)
          (rw same at o)) [
            | inl e ↦ subst (IsListed (t ∷ ts)) e (refl, Occurs-here t ts, same)
            | inr later ↦ IsListed-there t ts id (IsListed-available ts id later)
          ]
  ]

  available-IsListed :
      (ts : List LiquiditySourceType) (id : SourceId)
      → IsListed ts id
      → Occurs id (available env filter input output s ts)
  unfolding available
  available-IsListed [] id (e, o, h) = absurd (Occurs-empty id.liquidity_source_index o)
  available-IsListed (t ∷ ts) id (e, o, h) =
      let rest = available env filter input output s ts in
      elim (Occurs-cons id.liquidity_source_index t ts o) [
        | inl same ↦
            let found : is_available env filter input output s t ≡ true =
              ap (is_available env filter input output s) same ∙ h in
            let is_id : source_id filter.dex_id t ≡ id = ground arith in
            rw found (subst (λ x. Occurs id (x ∷ rest)) (sym is_id) (Occurs-here id rest))
        | inr later ↦
            let found = available-IsListed ts id (e, later, h) in
            elim (Bool-cases (is_available env filter input output s t)) [
              | inl same ↦ rw same (Occurs-there id (source_id filter.dex_id t) rest found)
              | inr differ ↦ rw differ found
            ]
      ]

module _ {S : Type 0} (env : Env S) (dex_id : ℕ) (mode : FilterMode)
    (types : List LiquiditySourceType) (input output : ℕ) (s : S) where
  is_available_iff :
      (id : SourceId)
      → id.dex_id ≡ (with_mode dex_id mode types).dex_id
      → (is_available env (with_mode dex_id mode types) input output s id.liquidity_source_index
          ≡ true)
        ↔ (IsAllowed mode types id.liquidity_source_index
            × (can_exchange env id input output s ≡ true))
  unfolding is_available
  is_available_iff id e =
      let t = id.liquidity_source_index in
      let filter = with_mode dex_id mode types in
      let same : can_exchange env (source_id filter.dex_id t) input output s
          ≡ can_exchange env id input output s =
        ap (λ d. can_exchange env (source_id d t) input output s) (sym e) in
      conjunction_iff (matches_index filter t)
        (can_exchange env (source_id filter.dex_id t) input output s)
        (matches_index-with_mode dex_id mode types t) ((λ h. sym same ∙ h), (λ h. same ∙ h))

  -- For an exchange that is registered the listing succeeds. It has a source exactly when the
  -- source belongs to the exchange, its type is enabled, the mode allows it for the given types,
  -- and the source can exchange the two assets.
  pub list_liquidity_sources_iff :
      contains_key (env.dex_infos s) dex_id ≡ true
      → (ids : List SourceId) × (list_liquidity_sources env input output
            (with_mode dex_id mode types)
            s
          ≡ ok ids)
        × ((id : SourceId)
            → Occurs id ids ↔ (
                (id.dex_id ≡ dex_id)
                × Occurs id.liquidity_source_index (env.enabled_source_types s)
                × IsAllowed mode types id.liquidity_source_index
                × (can_exchange env id input output s ≡ true)))
  unfolding list_liquidity_sources ensure_dex_exists get_supported_types
  list_liquidity_sources_iff known =
      let filter = with_mode dex_id mode types in
      let same_dex = with_mode-dex_id dex_id mode types in
      let ts = env.enabled_source_types s in
      let ids = available env filter input output s ts in
      (
        ids,
        rw same_dex (rw known refl),
        λ id. (
          (λ o.
              let (e, listed, h) = IsListed-available env filter input output s ts id o in
              let (allowed, serves) = (is_available_iff id e).0 h in
              (e ∙ same_dex, listed, allowed, serves)),
          (λ r.
              let (e, listed, allowed, serves) = r in
              let d = e ∙ sym same_dex in
              available-IsListed env filter input output s ts id
                (d, listed, (is_available_iff id d).1 (allowed, serves))),
        ),
      )
