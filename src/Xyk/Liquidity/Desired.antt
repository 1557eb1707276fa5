-- ===== src/Xyk/Liquidity/Desired.antt =====
-- pallets/pool-xyk/src/action_deposit_liquidity.rs: deposits for a desired amount of liquidity.
use sora2_parachain.Prelude.{
  ℕ, ◌+◌, if◌then◌else◌, ◌≡◌, ◌≢◌, ◌∙◌, ◌<◌, ap, sym, refl, false, Option, some, not, ◌||◌, nat_eq,
  arith,
}
use sora2_parachain.Common.Errors.{DispatchError}
use sora2_parachain.Common.Result.{Result, ok, err, >>=-eq-ok}
use sora2_parachain.Common.Effects.{Effect, ◌>>=◌, Fails, bind-eq-ok, reads-eq-ok, require-eq-ok}
use sora2_parachain.Common.Fixed.{IsFloored}
use sora2_parachain.Technical.{tech_account_id_to_account_id}
use sora2_parachain.Assets.Operations.{ensure_asset_exists}
use sora2_parachain.Assets.Transfers.{free_balance, total_issuance}
use sora2_parachain.Xyk.Bounds.{desired}
use sora2_parachain.Xyk.Math.{Outcome}
use sora2_parachain.Xyk.Defs.{State, Env, DepositLiquidityAction}
use sora2_parachain.Xyk.PairSwap.Prepare.{client_of, or_client}
use sora2_parachain.Xyk.Liquidity.Deposit.{set_accounts, settle, is_abstract_checking}
use sora2_parachain.Xyk.Liquidity.Entry.{ok_action, settle-desired}
use sora2_parachain.Xyk.Liquidity.Actions.{
  checked_pool, issued, deposit_into, prepare_deposit, prepare_deposit_abstract,
  prepare_deposit_for,
}
use sora2_parachain.Xyk.Liquidity.Marking.{with_record, checked-inversion}

-- The action with the accounts that are set.
abbrev for_accounts : Option ℕ → Option ℕ → DepositLiquidityAction → DepositLiquidityAction
for_accounts client receiver a = record a { client_account = client; receiver_account = receiver }

accounts-inversion :
    (source : ℕ) (a a1 : DepositLiquidityAction)
    → set_accounts source a ≡ ok a1
    → (client receiver : Option ℕ) × (for_accounts client receiver a ≡ a1)
unfolding set_accounts
accounts-inversion source a a1 h =
    let (client, e, h1) = >>=-eq-ok (client_of source a.client_account) _ h in
    let receiver = or_client a.receiver_account (some client) in
    (some client, receiver, ok_action (for_accounts (some client) receiver a) a1 h1)

same_ok : {m n : ℕ} → ◌≡◌ {A = Outcome ℕ} (ok m) (ok n) → m ≡ n
same_ok h = ground arith

-- A call that does not succeed fails.
unless-ok :
    {S A : Type 0} (r : Result DispatchError A × S)
    → ((y : A) (s' : S) → r ≢ (ok y, s'))
    → (e : DispatchError) × (r.0 ≡ err e)
unless-ok (ok y, s') h = absurd (h y s' refl)
unless-ok (err e, s') h = (e, refl)

module _ {S L : Type 0} (env : Env S L) where
  open env use {technical_env, fx}
  open technical_env use {assets_env}

  -- The balances of `pool` of the two assets of a deposit.
  abbrev pub HasReserves : ℕ → DepositLiquidityAction → State S L → ℕ → ℕ → Type 0
  HasReserves pool a s bp tp =
      (free_balance assets_env a.source.first.asset pool s.technical.assets ≡ ok bp)
      × (free_balance assets_env a.source.second.asset pool s.technical.assets ≡ ok tp)

  same_action :
      {C : Type 0} {s s' : C} (r : Outcome DepositLiquidityAction) (a : DepositLiquidityAction)
      → ◌≡◌ {A = Outcome DepositLiquidityAction × C} (r, s) (ok a, s')
      → r ≡ ok a
  same_action r a h = ap (λ p. p.0) h

  into-inversion :
      (source pool : ℕ) (a a' : DepositLiquidityAction) (s s' : State S L)
      → deposit_into env source pool a s ≡ (ok a', s')
      → (bs ts bp tp : ℕ) × HasReserves pool a s bp tp
        × (settle fx bp tp bs ts (issued env a.destination.asset s) a ≡ ok a')
  unfolding deposit_into
  into-inversion source pool a a' s s' h =
      let first = a.source.first.asset in
      let second = a.source.second.asset in
      let (bs, e1, h1) =
        reads-eq-ok (λ s. free_balance assets_env first source s.technical.assets) _ s h in
      let (ts, e2, h2) =
        reads-eq-ok (λ s. free_balance assets_env second source s.technical.assets) _ s h1 in
      let (some_both, h3) = require-eq-ok (not (nat_eq bs 0 || nat_eq ts 0)) _ _ s h2 in
      let (bp, e3, h4) =
        reads-eq-ok (λ s. free_balance assets_env first pool s.technical.assets) _ s h3 in
      let (tp, e4, h5) =
        reads-eq-ok (λ s. free_balance assets_env second pool s.technical.assets) _ s h4 in
      (
        bs,
        ts,
        bp,
        tp,
        (e3, e4),
        same_action (settle fx bp tp bs ts (issued env a.destination.asset s) a) a' h5,
      )

  -- The balances do not depend on the record of the marker asset's id.
  unrecorded :
      (marker pool bp tp : ℕ) (a : DepositLiquidityAction) (s : State S L)
      → HasReserves pool a (with_record env marker s) bp tp
      → HasReserves pool a s bp tp
  unfolding free_balance total_issuance ensure_asset_exists
  unrecorded marker pool bp tp a s r = r

  module _ (laws : IsFloored fx) (source k : ℕ) (a : DepositLiquidityAction) (s : State S L) where
    into-empty :
        (pool : ℕ) (a' : DepositLiquidityAction) (s1 s' : State S L)
        → s1 ≡ with_record env pool s
        → a.destination.amount ≡ desired k
        → deposit_into env source pool a s1 ≡ (ok a', s')
        → HasReserves pool a s 0 0
    into-empty pool a' s1 s' stored wants h =
        let (bs, ts, bp, tp, reserves, e) =
          into-inversion source pool a a' (with_record env pool s) s'
            (ap (deposit_into env source pool a) (sym stored) ∙ h) in
        let (no_b, no_t) =
          settle-desired fx laws bp tp bs ts k
            (issued env a.destination.asset (with_record env pool s)) a a' wants e in
        let (first, second) = unrecorded pool pool bp tp a s reserves in
        (first ∙ ap ok no_b, second ∙ ap ok no_t)

  -- The pool of a deposit for a desired amount that is prepared is empty.
  prepared-empty :
      (laws : IsFloored fx) (source k : ℕ) (a a' : DepositLiquidityAction) (s s' : State S L)
      → is_abstract_checking a ≡ false
      → a.destination.amount ≡ desired k
      → prepare_deposit env (some source) a s ≡ (ok a', s')
      → (pool : ℕ) × (tech_account_id_to_account_id technical_env a.pool_account ≡ ok pool)
        × HasReserves pool a s 0 0
  unfolding prepare_deposit
  prepared-empty laws source k a a' s s' concrete wants h =
      let for_sure : prepare_deposit_for env source a s ≡ (ok a', s') =
        ap (λ c. (if c then prepare_deposit_abstract env a else prepare_deposit_for env source a) s)
          (sym concrete)
        ∙ h in
      let next : DepositLiquidityAction → Effect (State S L) DepositLiquidityAction = λ b.
        checked_pool env b.pool_account b.destination.asset >>= λ pool.
        deposit_into env source pool b in
      let (a1, e1, h1) = reads-eq-ok (λ s. set_accounts source a) next s for_sure in
      let (client, receiver, same) = accounts-inversion source a a1 e1 in
      let b = for_accounts client receiver a in
      let (pool, s1, e2, h2) =
        bind-eq-ok (checked_pool env a.pool_account a.destination.asset)
          (λ pool. deposit_into env source pool b) s (ap (λ c. next c s) same ∙ h1) in
      let (known, registered, stored) =
        checked-inversion env a.pool_account a.destination.asset pool s s1 e2 in
      (pool, known, into-empty laws source k b s pool a' s1 s' stored wants h2)

  -- A deposit for a desired amount of liquidity into a pool that has one of the assets always fails:
  -- it divides by zero, or a check refuses it before.
  pub prepare_deposit-desired-Fails :
      (source k pool bp tp : ℕ) (a : DepositLiquidityAction) (s : State S L)
      → IsFloored fx
      → is_abstract_checking a ≡ false
      → a.destination.amount ≡ desired k
      → tech_account_id_to_account_id technical_env a.pool_account ≡ ok pool
      → HasReserves pool a s bp tp
      → 0 < bp + tp
      → Fails (prepare_deposit env (some source) a) s
  prepare_deposit-desired-Fails source k pool bp tp a s laws concrete wants known has filled =
      unless-ok (prepare_deposit env (some source) a s) λ a' s' h.
        let (pool', known', (no_b, no_t)) =
          prepared-empty laws source k a a' s s' concrete wants h in
        let same = same_ok (sym known' ∙ known) in
        let first =
          ap (λ p. free_balance assets_env a.source.first.asset p s.technical.assets) same in
        let second =
          ap (λ p. free_balance assets_env a.source.second.asset p s.technical.assets) same in
        let none_b = same_ok (sym no_b ∙ first ∙ has.0) in
        let none_t = same_ok (sym no_t ∙ second ∙ has.1) in omega arith
