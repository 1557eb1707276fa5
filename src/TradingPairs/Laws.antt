-- ===== src/TradingPairs/Laws.antt =====
-- pallets/trading-pair/src/lib.rs: registration of pairs and enabling of sources.
use sora2_parachain.Prelude.{
  ℕ, ◌≡◌, refl, ◌++◌, ◌≢◌, ◌⊎◌, inl, inr, Bool, true, ◌||◌, Option, none, List, [], ◌∷◌, arith,
  nat_eq_iff, eq_ℕ, eq_pair, Option-cases,
}
use sora2_parachain.Common.Errors.{DispatchError}
use sora2_parachain.Common.Result.{Result, ok, err, Result-cases}
use sora2_parachain.Common.Storage.{insert, get-insert_self}
use sora2_parachain.Common.Primitives.{
  eq_trading_pair, LiquiditySourceType, source_beq, source_index, Origin, public_mode,
}
use sora2_parachain.DexManager.{ensure_can_manage, ensure_dex_exists}
use sora2_parachain.TradingPairs.{
  State, enabled, pair_of, register, contains_source, insert_source, enable_source_for_trading_pair,
  is_source_enabled_for_trading_pair,
}

source_beq-contains :
    (t u : LiquiditySourceType) (us : List LiquiditySourceType)
    → source_beq t u ≡ true
    → contains_source us u ≡ contains_source us t
unfolding contains_source
source_beq-contains t u [] h = refl
source_beq-contains t u (v ∷ us) h = ground (
  arith,
  source_beq-contains t u us h,
  nat_eq_iff (source_index t) (source_index u),
  nat_eq_iff (source_index v) (source_index u),
  nat_eq_iff (source_index v) (source_index t),
)

contains-insert_source :
    (t u : LiquiditySourceType) (us : List LiquiditySourceType)
    → contains_source (insert_source t us) u ≡ (source_beq t u || contains_source us u)
unfolding insert_source
contains-insert_source t u us = ground (arith, source_beq-contains t u us)

module _ {S : Type 0} where
  -- A source can be enabled for every registered pair. After it a source is enabled for the pair
  -- exactly if it was before or is that source.
  pub enable_source_lem :
      (dex_id base target : ℕ) (source other : LiquiditySourceType) (s : State S) {b : Bool}
      → is_source_enabled_for_trading_pair dex_id base target other s ≡ ok b
      → let (r, t) = enable_source_for_trading_pair dex_id base target source s in
        (r ≡ ok tt)
        × (is_source_enabled_for_trading_pair dex_id base target other t
            ≡ ok (source_beq source other || b))
  unfolding enable_source_for_trading_pair is_source_enabled_for_trading_pair ensure_dex_exists
  enable_source_lem dex_id base target source other s h =
      elim (Option-cases (enabled s dex_id base target)) [
        | inl e ↦ absurd (ground arith)
        | inr (us, e) ↦ ground (
          arith,
          get-insert_self s.enabled_sources (dex_id, pair_of base target) (insert_source source us),
          contains-insert_source source other us,
        )
      ]

  module _ (hash : ℕ → ℕ) (ensure_asset_exists : ℕ → Result DispatchError (Unit {0}))
      (base_asset : ℕ) where
    -- A registration either fails and changes nothing, or was allowed: then the caller can manage
    -- the exchange, both assets exist and differ, the first is the base asset and the pair was new,
    -- and the storage is as it was, but that the pair is registered with no source and that its
    -- event follows the earlier ones.
    pub register_lem :
        (origin : Origin) (dex_id base target : ℕ) (s : State S)
        → let (r, t) = register hash ensure_asset_exists base_asset origin dex_id base target s in
          ((e : DispatchError) × (r ≡ err e)) × (t ≡ s)
          ⊎ (r ≡ ok tt)
            × ((author : Option ℕ) × (ensure_can_manage hash dex_id origin public_mode s.dex_infos
                    s.permissions
                  ≡ ok author))
            × (ensure_asset_exists base ≡ ok tt)
            × (ensure_asset_exists target ≡ ok tt)
            × (base ≢ target)
            × (base ≡ base_asset)
            × (enabled s dex_id base target ≡ none)
            × (t ≡ record s {
              enabled_sources = insert s.enabled_sources (dex_id, pair_of base target) [];
              events = s.events ++ ((dex_id, pair_of base target) ∷ []);
            })
    unfolding register
    register_lem origin dex_id base target s =
        elim (Result-cases
          (register hash ensure_asset_exists base_asset origin dex_id base target s).0) [
            | inl (u, e) ↦
                elim (Result-cases
                  (ensure_can_manage hash dex_id origin public_mode s.dex_infos s.permissions)) [
                    | inl (author, may) ↦ inr (
                      e,
                      (author, may),
                      ground arith,
                      ground arith,
                      ground arith,
                      ground arith,
                      ground arith,
                      ground arith,
                    )
                    | inr (x, no_) ↦ absurd (ground arith)
                  ]
            | inr (x, e) ↦ inl ((x, e), ground arith)
          ]
