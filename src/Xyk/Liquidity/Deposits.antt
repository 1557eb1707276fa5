-- ===== src/Xyk/Liquidity/Deposits.antt =====
-- pallets/pool-xyk/src/action_deposit_liquidity.rs: what a prepared deposit keeps to, from the
-- balances in the storage.
use sora2_parachain.Prelude.{
  ℕ, ◌*◌, ◌/◌, ◌≤◌, ◌<◌, ◌≡◌, ◌∙◌, ap, sym, ◌⊎◌, inl, inr, Option, some, none, min, not, ◌||◌,
  nat_eq,
}
use sora2_parachain.Common.Errors.{DispatchError}
use sora2_parachain.Common.Result.{Result, ok}
use sora2_parachain.Common.Effects.{◌>>=◌, bind-eq-ok, reads-eq-ok, require-eq-ok}
use sora2_parachain.Common.Fixed.{Fixnum, IsFloored, one}
use sora2_parachain.Common.Primitives.{TechAccountId}
use sora2_parachain.Technical.{tech_account_id_to_account_id}
use sora2_parachain.Assets.Operations.{ensure_asset_exists}
use sora2_parachain.Assets.Transfers.{free_balance, total_issuance}
use sora2_parachain.Xyk.Bounds.{calculated}
use sora2_parachain.Xyk.Math.{calc_deposit_liquidity_1}
use sora2_parachain.Xyk.Math.Deposit.{
  calculate_optimal_deposit_bounds, calc_deposit_liquidity_bounds, calc_deposit_liquidity-optimal,
}
use sora2_parachain.Xyk.Defs.{State, Env, DepositLiquidityAction}
use sora2_parachain.Xyk.Liquidity.Deposit.{ranged, set_accounts, settle, is_abstract_checking}
use sora2_parachain.Xyk.Liquidity.Entry.{
  settle-cases, IsFirst, IsFirst-inversion, IsNext-inversion, entered, ok_action,
}
use sora2_parachain.Xyk.Liquidity.Actions.{
  checked_pool, issued, deposit_into, prepare_deposit, prepare_deposit_for,
}
use sora2_parachain.Xyk.Liquidity.Marking.{with_record, checked-inversion}

-- The amounts of a later deposit: between the minimal and the desired ones, and worth the liquidity
-- that they earn.
abbrev pub HasEntered : ℕ → ℕ → ℕ → ℕ → ℕ → ℕ → ℕ → ℕ → ℕ → ℕ → Type 0
HasEntered a_desired b_desired a_min b_min bp tp total x y l =
    (a_min ≤ x)
    × (x ≤ a_desired)
    × (b_min ≤ y)
    × (y ≤ b_desired)
    × (min (x * total / bp) (y * total / tp) ≤ l)
    × (l * (bp * one / total) ≤ x * one)
    × (l * (tp * one / total) ≤ y * one)

module _ (fx : Fixnum) (laws : IsFloored fx) where
  priced :
      (total bp tp a_desired b_desired a_min b_min : ℕ) {x y l : ℕ}
      → a_min ≤ a_desired
      → b_min ≤ b_desired
      → calc_deposit_liquidity_1 fx total bp tp a_desired b_desired a_min b_min ≡ ok (x, y, l)
      → HasEntered a_desired b_desired a_min b_min bp tp total x y l
  priced total bp tp a_desired b_desired a_min b_min low_a low_b h =
      let (la, ha, lb, hb, way) =
        calculate_optimal_deposit_bounds fx laws total bp tp a_desired b_desired a_min b_min low_a
          low_b (calc_deposit_liquidity-optimal fx total bp tp a_desired b_desired a_min b_min h) in
      let (enough, worth_a, worth_b) =
        calc_deposit_liquidity_bounds fx laws total bp tp a_desired b_desired a_min b_min h in
      (la, ha, lb, hb, enough, worth_a, worth_b)

module _ {S L : Type 0} (env : Env S L) (laws : IsFloored env.fx) (source : ℕ)
    (tech : TechAccountId) (marker asset_a asset_b a_desired b_desired a_min b_min : ℕ) where
  open env use {technical_env, fx, from_tech_asset}
  open technical_env use {assets_env}

  abbrev pub deposit_of : Option ℕ → DepositLiquidityAction
  deposit_of who = ranged who who tech marker asset_a asset_b a_desired b_desired a_min b_min

  -- The balances of the source account and of the pool.
  abbrev pub HasFunds : ℕ → State S L → ℕ → ℕ → ℕ → ℕ → Type 0
  HasFunds pool s bs ts bp tp =
      (free_balance assets_env asset_a source s.technical.assets ≡ ok bs)
      × (free_balance assets_env asset_b source s.technical.assets ≡ ok ts)
      × (free_balance assets_env asset_a pool s.technical.assets ≡ ok bp)
      × (free_balance assets_env asset_b pool s.technical.assets ≡ ok tp)

  -- The deposit into an empty pool, and the one into a pool that has both assets.
  abbrev pub IsFirstDeposit : DepositLiquidityAction → ℕ → ℕ → ℕ → ℕ → Type 0
  IsFirstDeposit a' bs ts bp tp =
      (bp ≡ 0)
      × (tp ≡ 0)
      × ((k : ℕ) × IsFirst fx (some source) (some source) tech marker asset_a asset_b a_desired
            b_desired a_min b_min bs ts a' k)

  abbrev pub IsNextDeposit : DepositLiquidityAction → State S L → ℕ → ℕ → ℕ → ℕ → Type 0
  IsNextDeposit a' s bs ts bp tp =
      (0 < bp)
      × (0 < tp)
      × ((total x y l : ℕ) × (issued env marker s ≡ ok total)
          × HasEntered a_desired b_desired a_min b_min bp tp total x y l
          × (x ≤ bs)
          × (y ≤ ts)
          × (a' ≡ entered (calculated x) (calculated y) l (deposit_of (some source))))

  settled :
      (bs ts bp tp : ℕ) (s : State S L) (a' : DepositLiquidityAction)
      → settle fx bp tp bs ts (issued env marker s) (deposit_of (some source)) ≡ ok a'
      → IsFirstDeposit a' bs ts bp tp ⊎ IsNextDeposit a' s bs ts bp tp
  settled bs ts bp tp s a' h =
      elim (settle-cases fx bp tp bs ts (issued env marker s) (deposit_of (some source)) a' h) [
        | inl (no_b, no_t, e) ↦ inl (
          no_b,
          no_t,
          IsFirst-inversion fx (some source) (some source) tech marker asset_a asset_b a_desired
              b_desired a_min b_min bs ts a' e,
        )
        | inr (some_b, some_t, e) ↦
            let (total, x, y, l, (e1, low_a, low_b, e2, enough_a, enough_b, same)) =
              IsNext-inversion fx (some source) (some source) tech marker asset_a asset_b a_desired
                b_desired a_min b_min bs ts bp tp (issued env marker s) a' e in
            inr (
              some_b,
              some_t,
              (
                total,
                x,
                y,
                l,
                e1,
                priced fx laws total bp tp a_desired b_desired a_min b_min low_a low_b e2,
                enough_a,
                enough_b,
                same,
              ),
            )
      ]

  same_action :
      {C : Type 0} {s s' : C} (r : Result DispatchError DepositLiquidityAction)
      (a : DepositLiquidityAction)
      → ◌≡◌ {A = Result DispatchError DepositLiquidityAction × C} (r, s) (ok a, s')
      → r ≡ ok a
  same_action r a h = ap (λ p. p.0) h

  into-inversion :
      (pool : ℕ) (a' : DepositLiquidityAction) (s s' : State S L)
      → deposit_into env source pool (deposit_of (some source)) s ≡ (ok a', s')
      → (bs ts bp tp : ℕ) × HasFunds pool s bs ts bp tp
        × (IsFirstDeposit a' bs ts bp tp ⊎ IsNextDeposit a' s bs ts bp tp)
  unfolding deposit_into
  into-inversion pool a' s s' h =
      let (bs, e1, h1) =
        reads-eq-ok (λ s. free_balance assets_env asset_a source s.technical.assets) _ s h in
      let (ts, e2, h2) =
        reads-eq-ok (λ s. free_balance assets_env asset_b source s.technical.assets) _ s h1 in
      let (some_both, h3) = require-eq-ok (not (nat_eq bs 0 || nat_eq ts 0)) _ _ s h2 in
      let (bp, e3, h4) =
        reads-eq-ok (λ s. free_balance assets_env asset_a pool s.technical.assets) _ s h3 in
      let (tp, e4, h5) =
        reads-eq-ok (λ s. free_balance assets_env asset_b pool s.technical.assets) _ s h4 in
      (
        bs,
        ts,
        bp,
        tp,
        (e1, e2, e3, e4),
        settled bs ts bp tp s a' (
            same_action (settle fx bp tp bs ts (issued env marker s) (deposit_of (some source))) a'
              h5),
      )

  -- The balances do not depend on the record of the marker asset's id.
  abbrev HasResult : ℕ → DepositLiquidityAction → State S L → Type 0
  HasResult pool a' s =
      (bs ts bp tp : ℕ) × HasFunds pool s bs ts bp tp
      × (IsFirstDeposit a' bs ts bp tp ⊎ IsNextDeposit a' s bs ts bp tp)

  unrecorded :
      (pool : ℕ) (a' : DepositLiquidityAction) (s : State S L)
      → HasResult pool a' (with_record env pool s)
      → HasResult pool a' s
  unfolding free_balance total_issuance ensure_asset_exists
  unrecorded pool a' s r = r

  decided :
      (pool : ℕ) (a' : DepositLiquidityAction) (s s1 s' : State S L)
      → s1 ≡ with_record env pool s
      → deposit_into env source pool (deposit_of (some source)) s1 ≡ (ok a', s')
      → HasResult pool a' s
  decided pool a' s s1 s' stored h = unrecorded pool a' s (
      into-inversion pool a' (with_record env pool s) s'
        (ap (deposit_into env source pool (deposit_of (some source))) (sym stored) ∙ h))

  accounts :
      (a1 : DepositLiquidityAction)
      → set_accounts source (deposit_of none) ≡ ok a1
      → deposit_of (some source) ≡ a1
  unfolding set_accounts
  accounts a1 h = ok_action (deposit_of (some source)) a1 h

  concrete :
      (a' : DepositLiquidityAction) (s s' : State S L)
      → prepare_deposit env (some source) (deposit_of none) s ≡ (ok a', s')
      → prepare_deposit_for env source (deposit_of none) s ≡ (ok a', s')
  unfolding prepare_deposit is_abstract_checking
  concrete a' s s' h = h

  from_pool :
      (a' : DepositLiquidityAction) (s s' : State S L)
      → (checked_pool env tech marker >>= λ pool.
            deposit_into env source pool (deposit_of (some source)))
          s
        ≡ (ok a', s')
      → (pool : ℕ) × (tech_account_id_to_account_id technical_env tech ≡ ok pool)
        × HasResult pool a' s
  from_pool a' s s' h =
      let (pool, s1, e1, h1) =
        bind-eq-ok (checked_pool env tech marker)
          (λ pool. deposit_into env source pool (deposit_of (some source))) s h in
      let (known, registered, stored) = checked-inversion env tech marker pool s s1 e1 in
      (pool, known, decided pool a' s s1 s' stored h1)

  -- A deposit between desired and minimal amounts that passes the checks is for the signer, who has
  -- both amounts. Into an empty pool it takes the desired amounts whole and mints the root `k` of
  -- their product less 1000, where `k` is 500 at least and the subtraction wraps around at 128 bits.
  -- Into another pool it takes amounts between the minimal and the desired ones and mints at least
  -- the smaller of the two exact shares, rounded down, and for neither asset more than the amount
  -- divided by the rounded reserve per token of supply.
  pub deposit_lem :
      (a' : DepositLiquidityAction) (s s' : State S L)
      → prepare_deposit env
          (some source)
          (ranged none none tech marker asset_a asset_b a_desired b_desired a_min b_min)
          s
        ≡ (ok a', s')
      → (pool bs ts bp tp : ℕ) × (tech_account_id_to_account_id technical_env tech ≡ ok pool)
        × HasFunds pool s bs ts bp tp
        × (IsFirstDeposit a' bs ts bp tp ⊎ IsNextDeposit a' s bs ts bp tp)
  deposit_lem a' s s' h =
      let (a1, e1, h1) =
        reads-eq-ok (λ s. set_accounts source (deposit_of none))
          (λ a. checked_pool env a.pool_account a.destination.asset >>= λ pool.
            deposit_into env source pool a)
          s (concrete a' s s' h) in
      let (pool, known, (bs, ts, bp, tp, funds, result)) = from_pool a' s s' (
        ap
          (λ a.
            (checked_pool env a.pool_account a.destination.asset >>= λ pool.
            deposit_into env source pool a)
              s)
          (accounts a1 e1)
        ∙ h1) in
      (pool, bs, ts, bp, tp, known, funds, result)
