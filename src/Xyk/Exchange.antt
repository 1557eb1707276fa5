-- ===== src/Xyk/Exchange.antt =====
-- pallets/pool-xyk/src/lib.rs: what an exchange returns, and a second initialisation of a pool.
use sora2_parachain.Prelude.{ℕ, ◌≡◌, ◌∙◌, ap, refl, ◌⊎◌, Bool, true, false, if◌then◌else◌, some}
use sora2_parachain.Common.Errors.{DispatchError, XykError}
use sora2_parachain.Common.Result.{ok, err, is_ok}
use sora2_parachain.Common.Effects.{
  reads, Fails, reads-Fails, then-Fails, bind-Fails, Fails-rollback,
}
use sora2_parachain.Common.Primitives.{
  TradingPair, TechAccountId, signed, public_mode, to_fee_account,
}
use sora2_parachain.Common.SwapAmounts.{SwapOutcome}
use sora2_parachain.DexManager.{ensure_can_manage}
use sora2_parachain.Technical.{tech_account_id_to_account_id, ensure_tech_account_registered}
use sora2_parachain.Xyk.Bounds.{Bounds, desired}
use sora2_parachain.Xyk.Bounds
use sora2_parachain.Xyk.Math.{wrapping_sub, Outcome, failed}
use sora2_parachain.Xyk.Defs.{
  PairSwapAction, State, Env, tech_account_from_dex_and_asset_pair, get_marking_asset,
}
use sora2_parachain.Xyk.PairSwap.Prepare.{unwrapped}
use sora2_parachain.Xyk.Liquidity.Marking.{marked-inversion}
use sora2_parachain.Xyk.Pallet.Trades.{exchange_action}
use sora2_parachain.Xyk.Pallet.Pools.{
  initialize_pool, initialize_pool_unchecked, require_new, rest_is_initialized,
}

-- The outcome of a prepared swap that pays `out` and keeps its fee.
abbrev pub IsOutcome : PairSwapAction → ℕ → SwapOutcome ℕ → Type 0
IsOutcome a out o =
    (a.fee ≡ some o.fee)
    × ((a.get_fee_from_destination ≡ some true) × (o.amount ≡ wrapping_sub out o.fee)
        ⊎ (a.get_fee_from_destination ≡ some false) × (o.amount ≡ out))

module _ {S L : Type 0} (env : Env S L) (swap_success : ℕ → State S L → State S L) where
  open env use {technical_env, hash_dex}

  -- The action of an exchange of an exact input.
  abbrev pub input_action : ℕ → TechAccountId → ℕ → ℕ → ℕ → ℕ → PairSwapAction
  input_action receiver tech input output sa m =
      exchange_action receiver tech input output (desired sa, Bounds.min m)

  refused :
      (dex_id mark_asset : ℕ) (pair : TradingPair) (tech fee_acc : TechAccountId) (s : State S L)
      → is_ok (ensure_tech_account_registered technical_env tech s.technical) ≡ true
      → (e : DispatchError) × (require_new env dex_id pair tech fee_acc mark_asset s ≡ err e)
  refused dex_id mark_asset pair tech fee_acc s h =
      rw h (again (rest_is_initialized env dex_id pair fee_acc mark_asset s))
    where
      again :
          (b : Bool)
          → (e : DispatchError) × (◌≡◌ {A = Outcome (Unit {0})}
              (if b
                then err (failed XykError.pool_is_already_initialized)
                else err (failed XykError.pool_initialization_is_invalid))
              (err e))
      again true = (failed XykError.pool_is_already_initialized, refl)
      again false = (failed XykError.pool_initialization_is_invalid, refl)

  unchecked-Fails :
      (dex_id asset_a asset_b repr : ℕ) (pair : TradingPair) (tech : TechAccountId) (s : State S L)
      → tech_account_from_dex_and_asset_pair env dex_id asset_a asset_b s ≡ ok (pair, tech)
      → tech_account_id_to_account_id technical_env tech ≡ ok repr
      → is_ok (ensure_tech_account_registered technical_env tech s.technical) ≡ true
      → Fails (initialize_pool_unchecked env dex_id asset_a asset_b) s
  unfolding initialize_pool_unchecked
  unchecked-Fails dex_id asset_a asset_b repr pair tech s e1 e2 known = rw e1 (
      reads-Fails (λ s. unwrapped (to_fee_account tech)) _ s
        λ fee_acc e3. then-Fails (get_marking_asset env tech) _ s λ mark_asset s1 e4.
          let (m, stored) = marked-inversion env tech repr mark_asset s s1 e2 e4 in
          bind-Fails (reads (require_new env dex_id pair tech fee_acc mark_asset)) _ s1 (
            refused dex_id mark_asset pair tech fee_acc s1 (
              ap (λ s. is_ok (ensure_tech_account_registered technical_env tech s.technical)) stored
              ∙ known)))

  -- A pool whose account is registered is not initialised again: the call fails, and the storage is
  -- as it was.
  pub initialize_pool-registered :
      (who dex_id asset_a asset_b repr : ℕ) (pair : TradingPair) (tech : TechAccountId)
      (s : State S L)
      → tech_account_from_dex_and_asset_pair env dex_id asset_a asset_b s ≡ ok (pair, tech)
      → tech_account_id_to_account_id technical_env tech ≡ ok repr
      → is_ok (ensure_tech_account_registered technical_env tech s.technical) ≡ true
      → (e : DispatchError) × (initialize_pool env (signed who) dex_id asset_a asset_b s
          ≡ (err e, s))
  unfolding initialize_pool
  initialize_pool-registered who dex_id asset_a asset_b repr pair tech s e1 e2 known =
      Fails-rollback _ s (
        reads-Fails
          (λ s.
            ensure_can_manage hash_dex dex_id (signed who) public_mode s.dex_infos
              (s.technical.assets.permissions))
          _ s
          λ manager e3.
            bind-Fails (initialize_pool_unchecked env dex_id asset_a asset_b) _ s
              (unchecked-Fails dex_id asset_a asset_b repr pair tech s e1 e2 known))
