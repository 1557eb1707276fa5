-- ===== src/Xyk/Liquidity/Limits.antt =====
-- pallets/pool-xyk/src/action_withdraw_liquidity.rs: what a prepared withdrawal keeps to, from the
-- balances in the storage.
use sora2_parachain.Prelude.{ℕ, ◌≤◌, ◌<◌, ◌≡◌, ◌∙◌, ap, sym, some, ltb}
use sora2_parachain.Common.Errors.{DispatchError}
use sora2_parachain.Common.Result.{Result, ok, >>=-eq-ok}
use sora2_parachain.Common.Effects.{bind-eq-ok, reads-eq-ok, require-eq-ok}
use sora2_parachain.Common.Fixed.{IsFloored}
use sora2_parachain.Technical.{tech_account_id_to_account_id}
use sora2_parachain.Assets.Transfers.{free_balance, total_issuance}
use sora2_parachain.Assets.Operations.{ensure_asset_exists}
use sora2_parachain.Xyk.Bounds.{Bounds, calculated, desired}
use sora2_parachain.Xyk.Defs.{State, Env, WithdrawLiquidityAction}
use sora2_parachain.Xyk.PairSwap.Prepare.{client_of, or_client}
use sora2_parachain.Xyk.PairSwap.Inversion.{client_of-inversion}
use sora2_parachain.Xyk.Liquidity.Withdraw.{set_accounts, settle}
use sora2_parachain.Xyk.Liquidity.Withdrawal.{
  IsShare, IsPriced, part_of-IsShare, settled, taken, ok_same,
}
use sora2_parachain.Xyk.Liquidity.Actions.{checked_pool, issued, withdraw_from, prepare_withdraw}
use sora2_parachain.Xyk.Liquidity.Marking.{with_record, checked-inversion}

abbrev pub with_accounts : ℕ → WithdrawLiquidityAction → WithdrawLiquidityAction
with_accounts client a = record a {
  client_account = some client;
  receiver_account_a = or_client a.receiver_account_a (some client);
  receiver_account_b = or_client a.receiver_account_b (some client);
}

accounts-inversion :
    (source : ℕ) (a a1 : WithdrawLiquidityAction)
    → set_accounts source a ≡ ok a1
    → a1 ≡ with_accounts source a
unfolding set_accounts
accounts-inversion source a a1 h =
    let (client, e, h1) = >>=-eq-ok (client_of source a.client_account) _ h in
    let same = client_of-inversion source a.client_account e in
    sym (ok_same (with_accounts client a) a1 h1) ∙ ap (λ c. with_accounts c a) same

result_same :
    {C : Type 0} {s s' : C} (r : Result DispatchError WithdrawLiquidityAction)
    (a : WithdrawLiquidityAction)
    → ◌≡◌ {A = Result DispatchError WithdrawLiquidityAction × C} (r, s) (ok a, s')
    → r ≡ ok a
result_same r a h = ap (λ p. p.0) h

-- The amounts of a withdrawal `a'` of `k` that was prepared from `a`.
abbrev pub HasWithdrawn : ℕ → ℕ → ℕ → ℕ → ℕ → ℕ → ℕ → ℕ → ℕ → ℕ → WithdrawLiquidityAction → Type 0
HasWithdrawn source k ks bp tp total mx my x y a' =
    (IsShare bp k total x)
    × (IsShare tp k total y)
    × (mx ≤ x)
    × (my ≤ y)
    × (0 < k)
    × (k ≤ ks)
    × (a'.source.amount ≡ desired k)
    × (a'.destination.first.amount ≡ calculated x)
    × (a'.destination.second.amount ≡ calculated y)
    × (a'.client_account ≡ some source)

module _ {S L : Type 0} (env : Env S L) where
  open env use {technical_env, fx, from_tech_asset}
  open technical_env use {assets_env}

  -- The balances that a withdrawal is computed from.
  abbrev pub HasStock : ℕ → ℕ → WithdrawLiquidityAction → State S L → ℕ → ℕ → ℕ → ℕ → Type 0
  HasStock source pool a s ks bp tp total =
      (free_balance assets_env (from_tech_asset a.source.asset) source s.technical.assets ≡ ok ks)
      × (free_balance assets_env a.destination.first.asset pool s.technical.assets ≡ ok bp)
      × (free_balance assets_env a.destination.second.asset pool s.technical.assets ≡ ok tp)
      × (total_issuance assets_env (from_tech_asset a.source.asset) s.technical.assets ≡ ok total)

  withdraw_from-inversion :
      (source pool k mx my : ℕ) (a a' : WithdrawLiquidityAction) (s s' : State S L)
      → withdraw_from env source pool a s ≡ (ok a', s')
      → a.source.amount ≡ desired k
      → a.destination.first.amount ≡ Bounds.min mx
      → a.destination.second.amount ≡ Bounds.min my
      → (ks bp tp total x y : ℕ) × HasStock source pool a s ks bp tp total
        × IsPriced fx bp tp k total mx my x y
        × (k ≤ ks)
        × (a' ≡ taken fx bp tp x y a)
  unfolding withdraw_from
  withdraw_from-inversion source pool k mx my a a' s s' h ek ex ey =
      let (ks, e1, h1) =
        reads-eq-ok
          (λ s. free_balance assets_env (from_tech_asset a.source.asset) source s.technical.assets)
          _ s h in
      let (some_k, h2) = require-eq-ok (ltb 0 ks) _ _ s h1 in
      let (bp, e2, h3) =
        reads-eq-ok (λ s. free_balance assets_env a.destination.first.asset pool s.technical.assets)
          _ s h2 in
      let (tp, e3, h4) =
        reads-eq-ok
          (λ s. free_balance assets_env a.destination.second.asset pool s.technical.assets) _ s
          h3 in
      let done = result_same (settle fx bp tp ks (issued env a.source.asset s) a) a' h4 in
      let (total, x, y, e5, priced, enough, some_bp, some_tp, same) =
        settled fx bp tp ks k mx my (issued env a.source.asset s) a a' ek ex ey done in
      (ks, bp, tp, total, x, y, (e1, e2, e3, e5), priced, enough, same)

  withdrawn :
      (laws : IsFloored fx) (source k ks bp tp total mx my x y : ℕ) (a a' : WithdrawLiquidityAction)
      → IsPriced fx bp tp k total mx my x y
      → k ≤ ks
      → a.source.amount ≡ desired k
      → a' ≡ taken fx bp tp x y (with_accounts source a)
      → HasWithdrawn source k ks bp tp total mx my x y a'
  withdrawn laws source k ks bp tp total mx my x y a a' (e1, e2, low_x, low_y, positive) enough ek
        same =
      (
        part_of-IsShare fx laws bp k total e1,
        part_of-IsShare fx laws tp k total e2,
        low_x,
        low_y,
        positive,
        enough,
        ap (λ b. b.source.amount) same ∙ ek,
        ap (λ b. b.destination.first.amount) same,
        ap (λ b. b.destination.second.amount) same,
        ap (λ b. b.client_account) same,
      )

  -- A withdrawal of `k` marker tokens with minimal amounts that passes the checks is for the signer,
  -- who has the tokens; each of the two amounts that go out is at least its minimum, and it is the
  -- share `k / (issued + 1000)` of what the pool has of the asset, rounded down: not above the exact
  -- share, and under it by less than `1 + 10^18 / (issued + 1000)`.
  pub withdraw_lem :
      (laws : IsFloored fx) (source k mx my : ℕ) (a a' : WithdrawLiquidityAction) (s s' : State S L)
      → prepare_withdraw env (some source) a s ≡ (ok a', s')
      → a.source.amount ≡ desired k
      → a.destination.first.amount ≡ Bounds.min mx
      → a.destination.second.amount ≡ Bounds.min my
      → (pool ks bp tp total x y : ℕ) × (tech_account_id_to_account_id technical_env a.pool_account
          ≡ ok pool)
        × HasStock source pool a s ks bp tp total
        × HasWithdrawn source k ks bp tp total mx my x y a'
  unfolding prepare_withdraw free_balance total_issuance ensure_asset_exists
  withdraw_lem laws source k mx my a a' s s' h ek ex ey =
      let (a1, e1, h1) = reads-eq-ok (λ s. set_accounts source a) _ s h in
      let same = accounts-inversion source a a1 e1 in
      let (pool, s1, e2, h2) =
        bind-eq-ok (checked_pool env a1.pool_account a1.source.asset) _ s h1 in
      let (known, marker, stored) =
        checked-inversion env a1.pool_account a1.source.asset pool s s1 e2 in
      let (ks, bp, tp, total, x, y, stock, priced, enough, result) =
        withdraw_from-inversion source pool k mx my (with_accounts source a) a'
          (with_record env pool s) s'
          (ap (λ b. withdraw_from env source pool b (with_record env pool s)) (sym same)
            ∙ ap (withdraw_from env source pool a1) (sym stored)
            ∙ h2)
          ek ex ey in
      (
        pool,
        ks,
        bp,
        tp,
        total,
        x,
        y,
        ap (λ b. tech_account_id_to_account_id technical_env b.pool_account) (sym same) ∙ known,
        stock,
        withdrawn laws source k ks bp tp total mx my x y a a' priced enough ek result,
      )
