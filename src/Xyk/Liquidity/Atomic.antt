-- ===== src/Xyk/Liquidity/Atomic.antt =====
-- pallets/pool-xyk/src/action_poly_swap.rs: a swap of any kind that fails moves nothing.
use sora2_parachain.Prelude.{
  ℕ, arith, eq_ℕ, ◌≡◌, ¬◌, ap, subst, refl, Bool, Bool-cases, inl, inr, Option, none, some, ◌||◌,
  not, nat_eq, ltb,
}
use sora2_parachain.Common.Errors.{DispatchError, XykError}
use sora2_parachain.Common.Result.{ok, err, >>=-eq-ok}
use sora2_parachain.Common.Storage.{get}
use sora2_parachain.Common.Primitives.{TechAccountId}
use sora2_parachain.Assets.Defs.{AssetRecord}
use sora2_parachain.Common.Effects.{
  Effect, ◌>>=◌, ◌>>◌, reads, reads-Preserves, Preserves, bind-Preserves, require-Preserves,
  require,
}
use sora2_parachain.Technical.Swaps.{create_swap, create_swap-preserves}
use sora2_parachain.Xyk.Math.{failed, Outcome}
use sora2_parachain.Xyk.Defs.{State, Env, DepositLiquidityAction, WithdrawLiquidityAction}
use sora2_parachain.Xyk.PairSwap
use sora2_parachain.Xyk.PairSwap.Prepare.{client_of}
use sora2_parachain.Xyk.Liquidity.Deposit
use sora2_parachain.Xyk.Liquidity.Withdraw
use sora2_parachain.Xyk.Liquidity.Actions.{
  PolySwapAction, pair_swap, deposit_liquidity, withdraw_liquidity, prepare, poly_swap_rules,
  prepare_deposit, prepare_deposit_for, prepare_deposit_abstract, prepare_withdraw, deposit_into,
  withdraw_from, checked_pool, free, issued,
}
use sora2_parachain.Xyk.Liquidity.Marking.{
  forget_records, IsMarker, rest_and_record, checked-Preserves,
}

-- The account of the pool whose marker asset a preparation records: a swap has none.
abbrev pub marked_pool : PolySwapAction → Option TechAccountId
marked_pool (pair_swap a) = none
marked_pool (deposit_liquidity a) = some a.pool_account
marked_pool (withdraw_liquidity a) = some a.pool_account

deposit-pool :
    (source : ℕ) (a a' : DepositLiquidityAction)
    → Deposit.set_accounts source a ≡ ok a'
    → a.pool_account ≡ a'.pool_account
unfolding Deposit.set_accounts
deposit-pool source a a' h =
    let (client, e, h1) = >>=-eq-ok (client_of source a.client_account) _ h in
    ap (λ b. b.pool_account) (ok_same _ a' h1)
  where
    ok_same :
        (b b' : DepositLiquidityAction)
        → ◌≡◌ {A = Outcome DepositLiquidityAction} (ok b) (ok b')
        → b ≡ b'
    ok_same b b' h = ground arith

withdraw-pool :
    (source : ℕ) (a a' : WithdrawLiquidityAction)
    → Withdraw.set_accounts source a ≡ ok a'
    → a.pool_account ≡ a'.pool_account
unfolding Withdraw.set_accounts
withdraw-pool source a a' h =
    let (client, e, h1) = >>=-eq-ok (client_of source a.client_account) _ h in
    ap (λ b. b.pool_account) (ok_same _ a' h1)
  where
    ok_same :
        (b b' : WithdrawLiquidityAction)
        → ◌≡◌ {A = Outcome WithdrawLiquidityAction} (ok b) (ok b')
        → b ≡ b'
    ok_same b b' h = ground arith

known-Preserves :
    {S V A B : Type 0} (view : S → V) (r : Outcome A) (f : A → Effect S B)
    → ((x : A) → r ≡ ok x → Preserves view (f x))
    → Preserves view (reads (λ s. r) >>= f)
known-Preserves view (ok x) f h = h x refl
known-Preserves view (err e) f h = λ s. refl

module _ {S L : Type 0} (env : Env S L) (id : ℕ) where
  open env use {fx, from_tech_asset}

  -- `id` is the id of the marker asset of the action's pool.
  abbrev pub IsMarkerOf : PolySwapAction → Type 0
  IsMarkerOf a = (tech : TechAccountId) × (marked_pool a ≡ some tech) × IsMarker env tech id

  abbrev view : State S L → State S L × Option AssetRecord
  view = rest_and_record env id

  abbrev pub Keeps : {A : Type 0} → Effect (State S L) A → Type 0
  Keeps = Preserves view

  free-then :
      {B : Type 0} (asset who : ℕ) (f : ℕ → Effect (State S L) B)
      → ((n : ℕ) → Keeps (f n))
      → Keeps (free env asset who >>= f)
  free-then asset who f = bind-Preserves view (free env asset who) f (λ s. refl)

  balances-Keeps :
      (b : Bool) (e : DispatchError) {B : Type 0} (first second pool : ℕ)
      (f : ℕ → ℕ → Effect (State S L) B)
      → ((bp tp : ℕ) → Keeps (f bp tp))
      → Keeps
          (require b e >> (free env first pool >>= λ bp. free env second pool >>= λ tp. f bp tp))
  balances-Keeps b e first second pool f h =
      bind-Preserves view (require b e) _ (require-Preserves view b e)
        λ u. free-then first pool _ λ bp. free-then second pool _ (h bp)

  deposit_into-Keeps :
      (source pool : ℕ) (a : DepositLiquidityAction) → Keeps (deposit_into env source pool a)
  unfolding deposit_into
  deposit_into-Keeps source pool a = free-then a.source.first.asset source _ λ bs.
      free-then a.source.second.asset source _ λ ts.
        balances-Keeps (not (nat_eq bs 0 || nat_eq ts 0))
          (failed XykError.account_balance_is_invalid) a.source.first.asset a.source.second.asset
          pool
          (λ bp tp. reads λ s. Deposit.settle fx bp tp bs ts (issued env a.destination.asset s) a)
          λ bp tp s. refl

  deposit_for-Keeps :
      (source : ℕ) (a : DepositLiquidityAction)
      → ¬ IsMarker env a.pool_account id
      → Keeps (prepare_deposit_for env source a)
  deposit_for-Keeps source a other = known-Preserves view (Deposit.set_accounts source a) _ λ a' e.
      bind-Preserves view (checked_pool env a'.pool_account a'.destination.asset) _
        (checked-Preserves env a'.pool_account id
          (subst (λ tech. ¬ IsMarker env tech id) (deposit-pool source a a' e) other)
          a'.destination.asset)
        λ pool. deposit_into-Keeps source pool a'

  deposit_abstract-Keeps :
      (a : DepositLiquidityAction)
      → ¬ IsMarker env a.pool_account id
      → Keeps (prepare_deposit_abstract env a)
  deposit_abstract-Keeps a other =
      bind-Preserves view (checked_pool env a.pool_account a.destination.asset) _
        (checked-Preserves env a.pool_account id other a.destination.asset)
        λ pool.
          free-then a.source.first.asset pool _
            λ bp. free-then a.source.second.asset pool _ λ tp s. refl

  deposit-Keeps :
      (source : Option ℕ) (a : DepositLiquidityAction)
      → ¬ IsMarker env a.pool_account id
      → Keeps (prepare_deposit env source a)
  unfolding prepare_deposit
  deposit-Keeps none a other = deposit_abstract-Keeps a other
  deposit-Keeps (some source) a other = elim (Bool-cases (Deposit.is_abstract_checking a)) [
    | inl h ↦ λ s. rw h (deposit_abstract-Keeps a other s)
    | inr h ↦ λ s. rw h (deposit_for-Keeps source a other s)
  ]

  withdraw_from-Keeps :
      (source pool : ℕ) (a : WithdrawLiquidityAction) → Keeps (withdraw_from env source pool a)
  unfolding withdraw_from
  withdraw_from-Keeps source pool a = free-then (from_tech_asset a.source.asset) source _ λ ks.
      balances-Keeps (ltb 0 ks) (failed XykError.account_balance_is_invalid)
        a.destination.first.asset a.destination.second.asset pool
        (λ bp tp. reads λ s. Withdraw.settle fx bp tp ks (issued env a.source.asset s) a)
        λ bp tp s. refl

  withdraw-Keeps :
      (source : Option ℕ) (a : WithdrawLiquidityAction)
      → ¬ IsMarker env a.pool_account id
      → Keeps (prepare_withdraw env source a)
  unfolding prepare_withdraw
  withdraw-Keeps none a other = λ s. refl
  withdraw-Keeps (some source) a other =
      known-Preserves view (Withdraw.set_accounts source a) _ λ a' e.
        bind-Preserves view (checked_pool env a'.pool_account a'.source.asset) _
          (checked-Preserves env a'.pool_account id
            (subst (λ tech. ¬ IsMarker env tech id) (withdraw-pool source a a' e) other)
            a'.source.asset)
          λ pool. withdraw_from-Keeps source pool a'

  prepare-Keeps :
      (source : Option ℕ) (a : PolySwapAction) → ¬ IsMarkerOf a → Keeps (prepare env source a)
  prepare-Keeps source (pair_swap a) other =
      reads-Preserves view (PairSwap.Prepare.prepare_and_validate env source a) _ λ a' s. refl
  prepare-Keeps source (deposit_liquidity a) other =
      bind-Preserves view (prepare_deposit env source a) _
        (deposit-Keeps source a λ m. other (a.pool_account, refl, m)) λ a' s. refl
  prepare-Keeps source (withdraw_liquidity a) other =
      bind-Preserves view (prepare_withdraw env source a) _
        (withdraw-Keeps source a λ m. other (a.pool_account, refl, m)) λ a' s. refl

  -- A swap, deposit or withdrawal that `create_swap` refuses leaves the storage as it was, but for
  -- the record of the id of the marker asset of a deposit's or withdrawal's pool: what the
  -- reservation moved, minted or burned is undone, and every other record of an id is kept.
  pub poly_swap-atomic :
      (swap_success : ℕ → State S L → State S L) (origin : Option ℕ) (a : PolySwapAction)
      (s : State S L) {e : DispatchError}
      → ¬ IsMarkerOf a
      → (create_swap (poly_swap_rules env) swap_success origin a s).0 ≡ err e
      → let t = (create_swap (poly_swap_rules env) swap_success origin a s).1 in
        (forget_records env t ≡ forget_records env s)
        × (get t.technical.assets.asset_records id ≡ get s.technical.assets.asset_records id)
  unfolding poly_swap_rules
  poly_swap-atomic swap_success origin a s other h =
      let same =
        create_swap-preserves (poly_swap_rules env) swap_success view origin a s
          (λ source. prepare-Keeps (some source) a other s) h in
      (ap (λ p. p.0) same, ap (λ p. p.1) same)
