-- ===== src/Xyk/Liquidity/Marking.antt =====
-- pallets/pool-xyk/src/utils.rs and the actions: the check of a pool's account and of its marker
-- asset, which stores the record of the marker's id and nothing else.
use sora2_parachain.Prelude.{
  ℕ, eq_ℕ, ◌≡◌, ◌∙◌, sym, ap, refl, inl, inr, ¬◌, true, Option, some, none, [], nat_eq, arith,
  nat_eq_iff,
}
use sora2_parachain.Common.Errors.{DispatchError, XykError}
use sora2_parachain.Common.Result.{Result, ok, ok_or, Result-cases}
use sora2_parachain.Common.Storage.{get, insert, get-insert_ne}
use sora2_parachain.Common.Effects.{
  pure, reads, require, reads-eq-ok, require-eq-ok, bind-eq-ok, Preserves, bind-Preserves,
  require-Preserves,
}
use sora2_parachain.Common.Primitives.{TechAccountId}
use sora2_parachain.Technical.{tech_account_id_to_account_id}
use sora2_parachain.Assets.Defs.{AssetRecord}
use sora2_parachain.Assets.Operations.{register_asset_id_from_tuple}
use sora2_parachain.Xyk.Math.{failed}
use sora2_parachain.Xyk.Defs.{
  State, Env, marking_record, get_marking_asset, get_marking_asset_repr, is_pool_account_valid_for,
}
use sora2_parachain.Xyk.Liquidity.Actions.{checked_pool}

module _ {S L : Type 0} (env : Env S L) where
  open env use {technical_env, to_tech_asset}
  open technical_env use {assets_env}
  open assets_env use {record_id}

  abbrev pub marker_id : ℕ → ℕ
  marker_id pool = record_id (marking_record env pool)

  -- The storage with the record of the marker of `pool`.
  abbrev pub with_record : ℕ → State S L → State S L
  with_record pool s = record s {
    technical = record (s.technical) {
      assets = record (s.technical.assets) {
        asset_records =
            insert s.technical.assets.asset_records (marker_id pool) (marking_record env pool);
      };
    };
  }

  -- The storage without the records of ids.
  unfoldable pub forget_records : State S L → State S L
  forget_records s = record s {
    technical = record (s.technical) {
      assets = record (s.technical.assets) { asset_records = [] };
    };
  }

  decoded :
      {n : ℕ} (e : DispatchError) (o : Option ℕ)
      → ◌≡◌ {A = Result DispatchError ℕ} (ok_or o e) (ok n)
      → o ≡ some n
  decoded e none h = absurd (ground arith)
  decoded e (some m) h = ground arith

  marking_value :
      (tech : TechAccountId) (pool : ℕ) (s : State S L)
      → tech_account_id_to_account_id technical_env tech ≡ ok pool
      → get_marking_asset env tech s ≡ (
        ok_or
            (to_tech_asset (marker_id pool))
            (failed XykError.unable_to_convert_asset_to_tech_asset_id),
        with_record pool s,
      )
  unfolding get_marking_asset get_marking_asset_repr register_asset_id_from_tuple
  marking_value tech pool s e = rw e refl

  pub marked-inversion :
      (tech : TechAccountId) (pool m : ℕ) (s s1 : State S L)
      → tech_account_id_to_account_id technical_env tech ≡ ok pool
      → get_marking_asset env tech s ≡ (ok m, s1)
      → (to_tech_asset (marker_id pool) ≡ some m) × (s1 ≡ with_record pool s)
  marked-inversion tech pool m s s1 e h =
      let same = sym (marking_value tech pool s e) ∙ h in
      (decoded _ (to_tech_asset (marker_id pool)) (ap (λ r. r.0) same), sym (ap (λ r. r.1) same))

  same_result :
      {p q : ℕ} {s s' : State S L}
      → ◌≡◌ {A = Result DispatchError ℕ × State S L} (ok p, s) (ok q, s')
      → (p ≡ q) × (s ≡ s')
  same_result {p} {q} h = let e = ap (λ r. r.0) h in (ok_same p q e, ap (λ r. r.1) h)
    where
      ok_same : (p q : ℕ) → ◌≡◌ {A = Result DispatchError ℕ} (ok p) (ok q) → p ≡ q
      ok_same p q h = ground arith

  matched :
      (tech : TechAccountId) (marker p pool m : ℕ) (s s1 s' : State S L)
      → tech_account_id_to_account_id technical_env tech ≡ ok p
      → get_marking_asset env tech s ≡ (ok m, s1)
      → nat_eq marker m ≡ true
      → ◌≡◌ {A = Result DispatchError ℕ × State S L} (ok p, s1) (ok pool, s')
      → (tech_account_id_to_account_id technical_env tech ≡ ok pool)
        × (to_tech_asset (marker_id pool) ≡ some marker)
        × (s' ≡ with_record pool s)
  matched tech marker p pool m s s1 s' e h same last =
      let (same_pool, same_state) = same_result last in
      let (known, stored) = marked-inversion tech p m s s1 e h in
      let same_marker : marker ≡ m = (nat_eq_iff marker m).0 same in
      (
        e ∙ ap ok same_pool,
        ap (λ n. to_tech_asset (marker_id n)) (sym same_pool) ∙ known ∙ ap some (sym same_marker),
        sym same_state ∙ stored ∙ ap (λ n. with_record n s) same_pool,
      )

  pub checked-inversion :
      (tech : TechAccountId) (marker pool : ℕ) (s s' : State S L)
      → checked_pool env tech marker s ≡ (ok pool, s')
      → (tech_account_id_to_account_id technical_env tech ≡ ok pool)
        × (to_tech_asset (marker_id pool) ≡ some marker)
        × (s' ≡ with_record pool s)
  unfolding checked_pool
  checked-inversion tech marker pool s s' h =
      let (p, e1, h1) = reads-eq-ok (λ s. tech_account_id_to_account_id technical_env tech) _ s h in
      let (u, e2, h2) = reads-eq-ok (is_pool_account_valid_for env tech) _ s h1 in
      let (m, s1, e3, h3) = bind-eq-ok (get_marking_asset env tech) _ s h2 in
      let (same, h4) = require-eq-ok (nat_eq marker m) _ (pure p) s1 h3 in
      matched tech marker p pool m s s1 s' e1 e3 same h4

  -- `id` is the id of the marker asset of the pool with the account `tech`.
  abbrev pub IsMarker : TechAccountId → ℕ → Type 0
  IsMarker tech id =
      (pool : ℕ) × (tech_account_id_to_account_id technical_env tech ≡ ok pool)
      × (id ≡ marker_id pool)

  -- All of the storage but the records of ids, and the record of `id`.
  abbrev pub rest_and_record : ℕ → State S L → State S L × Option AssetRecord
  rest_and_record id s = (forget_records s, get s.technical.assets.asset_records id)

  module _ (tech : TechAccountId) (id : ℕ) (other : ¬ IsMarker tech id) where
    marking-Preserves : Preserves (rest_and_record id) (get_marking_asset env tech)
    unfolding get_marking_asset get_marking_asset_repr register_asset_id_from_tuple forget_records
    marking-Preserves s = elim (Result-cases (tech_account_id_to_account_id technical_env tech)) [
      | inl (pool, e) ↦
          ap (λ r. rest_and_record id r.1) (marking_value tech pool s e)
          ∙ ap (λ r. (forget_records s, r))
              (get-insert_ne s.technical.assets.asset_records (marker_id pool) id
                (marking_record env pool) λ same. other (pool, e, sym same))
      | inr (x, e) ↦ rw e refl
    ]

    pub checked-Preserves :
        (marker : ℕ) → Preserves (rest_and_record id) (checked_pool env tech marker)
    unfolding checked_pool get_marking_asset get_marking_asset_repr register_asset_id_from_tuple
    checked-Preserves marker =
        let view = rest_and_record id in
        bind-Preserves view (reads λ s. tech_account_id_to_account_id technical_env tech) _
          (λ s. refl)
          λ pool.
            bind-Preserves view (reads (is_pool_account_valid_for env tech)) _ (λ s. refl)
              λ u. bind-Preserves view (get_marking_asset env tech) _ marking-Preserves λ m.
                bind-Preserves view
                  (require (nat_eq marker m) (failed XykError.invalid_asset_for_liquidity_marking))
                  _
                  (require-Preserves view (nat_eq marker m)
                    (failed XykError.invalid_asset_for_liquidity_marking))
                  λ v s. refl
