-- ===== src/Xyk/PairSwap/Limits.antt =====
-- pallets/pool-xyk/src/action_pair_swap.rs: what a prepared swap keeps to.
use sora2_parachain.Prelude.{ℕ, ◌≤◌, ◌<◌, ◌≡◌, ◌∙◌, ap, sym, refl, Bool, false, Option, some, arith}
use sora2_parachain.Common.Errors.{DispatchError}
use sora2_parachain.Common.Primitives.{TechAccountId}
use sora2_parachain.Common.Result.{ok, err, >>=-eq-ok}
use sora2_parachain.Xyk.Bounds.{Bounds, calculated, desired, is_dummy}
use sora2_parachain.Xyk.Bounds
use sora2_parachain.Xyk.Math.{calc_output_for_exact_input, calc_input_for_exact_output}
use sora2_parachain.Technical.{tech_account_id_to_account_id}
use sora2_parachain.Assets.Transfers.{free_balance}
use sora2_parachain.Xyk.Defs.{PairSwapAction, State, Env, is_pool_account_valid_for}
use sora2_parachain.Technical.Swaps.{create_swap, create_swap-atomic}
use sora2_parachain.Xyk.PairSwap.Reserve.{pair_swap_rules}
use sora2_parachain.Xyk.PairSwap.Prepare.{
  settle, set_accounts, is_abstract_checking, prepare_for, prepare_and_validate, set_destination,
}
use sora2_parachain.Xyk.PairSwap.Inversion.{
  accounts-inversion, with_accounts, settle-inversion, output-inversion, input-inversion, leb-le,
}

module _ {S L : Type 0} (env : Env S L) where
  open env use {technical_env, fx}
  open technical_env use {assets_env}

  amount-bound :
      (n n' limit : ℕ) (b : Bounds)
      → (Bounds.unwrap b ≡ some n)
      → (Bounds.unwrap b ≡ some n')
      → n' ≤ limit
      → n ≤ limit
  amount-bound n n' limit b e e' h = ground arith

  unwrap-desired : {n : ℕ} {b : Bounds} → b ≡ desired n → Bounds.unwrap b ≡ some n
  unfolding Bounds.unwrap
  unwrap-desired h = ap Bounds.unwrap h

  unwrap-calculated : {n : ℕ} {b : Bounds} → b ≡ calculated n → Bounds.unwrap b ≡ some n
  unfolding Bounds.unwrap
  unwrap-calculated h = ap Bounds.unwrap h

  -- The amounts of an exact-input swap `a'` that was prepared from `a`, with the balances of the
  -- source account and of the pool.
  abbrev pub HasSettledInput :
      ℕ → ℕ → ℕ → PairSwapAction → PairSwapAction → ℕ → ℕ → ℕ → Bool → Type 0
  HasSettledInput ss st tt' a a' sa m out side =
      ((recommended : ℕ) × (calc_output_for_exact_input fx side st tt' sa ≡ ok (out, recommended)))
      × (m ≤ out)
      × (out ≤ tt')
      × (sa ≤ ss)
      × (0 < sa)
      × (a'.source.amount ≡ desired sa)
      × (a'.destination.amount ≡ calculated out)
      × (a'.client_account ≡ a.client_account)

  -- The same for an exact output.
  abbrev pub HasSettledOutput :
      ℕ → ℕ → ℕ → PairSwapAction → PairSwapAction → ℕ → ℕ → ℕ → Bool → Type 0
  HasSettledOutput ss st tt' a a' sa_max ta x_in side =
      ((recommended : ℕ) × (calc_input_for_exact_output fx side st tt' ta ≡ ok (x_in, recommended)))
      × (x_in ≤ sa_max)
      × (x_in ≤ ss)
      × (ta ≤ tt')
      × (0 < ta)
      × (a'.source.amount ≡ calculated x_in)
      × (a'.destination.amount ≡ desired ta)
      × (a'.client_account ≡ a.client_account)

  -- The action `a` with what the preparation fills in.
  abbrev pub filled_input :
      Bool → ℕ → Option ℕ → Option TechAccountId → PairSwapAction → PairSwapAction
  filled_input side out fee fa a =
      record (set_destination (calculated out)
        (record a { get_fee_from_destination = some side })) { fee = fee; fee_account = fa }

  settled-input :
      (ss st tt' sa m : ℕ) (a a' : PairSwapAction)
      → settle env ss st tt' a ≡ ok a'
      → a.source.amount ≡ desired sa
      → a.destination.amount ≡ Bounds.min m
      → (out : ℕ) × (side : Bool) × HasSettledInput ss st tt' a a' sa m out side
        × (a' ≡ filled_input side out a'.fee a'.fee_account a)
  settled-input ss st tt' sa m a a' h e f =
      let (side, a2, recommended, sa', ta, g1, g2, g3, g4, g5, g6, g7, g8) =
        settle-inversion env ss st tt' a a' h in
      let (out, k1, k2, k3, k4) =
        output-inversion fx side st tt' sa m recommended
          (record a { get_fee_from_destination = some side }) a2 g1 e f in
      let source_same = ap (λ x. x.source.amount) k4 ∙ e in
      let out_same = ap (λ x. x.destination.amount) k4 in
      (
        out,
        side,
        (
          (recommended, k1),
          leb-le m out k2,
          amount-bound out ta tt' a2.destination.amount (unwrap-calculated out_same) g3 g5,
          amount-bound sa sa' ss a2.source.amount (unwrap-desired source_same) g2 g4,
          k3,
          ap (λ x. x.source.amount) g8 ∙ source_same,
          ap (λ x. x.destination.amount) g8 ∙ out_same,
          ap (λ x. x.client_account) g8 ∙ ap (λ x. x.client_account) k4,
        ),
        g8
            ∙ ap {A = PairSwapAction} (λ x. record x { fee = a'.fee; fee_account = a'.fee_account })
                k4,
      )

  settled-output :
      (ss st tt' sa_max ta : ℕ) (a a' : PairSwapAction)
      → settle env ss st tt' a ≡ ok a'
      → a.source.amount ≡ Bounds.max sa_max
      → a.destination.amount ≡ desired ta
      → (x_in : ℕ) × (side : Bool) × HasSettledOutput ss st tt' a a' sa_max ta x_in side
  settled-output ss st tt' sa_max ta a a' h e f =
      let (side, a2, recommended, sa', ta', g1, g2, g3, g4, g5, g6, g7, g8) =
        settle-inversion env ss st tt' a a' h in
      let (x_in, k1, k2, k3, k4) =
        input-inversion fx side st tt' sa_max ta recommended
          (record a { get_fee_from_destination = some side }) a2 g1 e f in
      let source_same = ap (λ x. x.source.amount) k4 in
      let out_same = ap (λ x. x.destination.amount) k4 ∙ f in
      (
        x_in,
        side,
        (
          (recommended, k1),
          leb-le x_in sa_max k2,
          amount-bound x_in sa' ss a2.source.amount (unwrap-calculated source_same) g2 g4,
          amount-bound ta ta' tt' a2.destination.amount (unwrap-desired out_same) g3 g5,
          k3,
          ap (λ x. x.source.amount) g8 ∙ source_same,
          ap (λ x. x.destination.amount) g8 ∙ out_same,
          ap (λ x. x.client_account) g8 ∙ ap (λ x. x.client_account) k4,
        ),
      )

  -- The balances that a swap is checked against.
  abbrev pub HasBalances : ℕ → PairSwapAction → State S L → ℕ → ℕ → ℕ → Type 0
  HasBalances source a s ss st tt' =
      (free_balance assets_env a.source.asset source s.technical.assets ≡ ok ss)
      × ((pool : ℕ) × (tech_account_id_to_account_id technical_env a.pool_account ≡ ok pool)
          × (free_balance assets_env a.source.asset pool s.technical.assets ≡ ok st)
          × (free_balance assets_env a.destination.asset pool s.technical.assets ≡ ok tt'))

  prepare-inversion :
      (source : ℕ) (a a' : PairSwapAction) (s : State S L)
      → prepare_for env source a s ≡ ok a'
      → (ss st tt' : ℕ) × HasBalances source a s ss st tt'
        × (settle env ss st tt' (with_accounts source a) ≡ ok a')
  unfolding prepare_for
  prepare-inversion source a a' s h =
      let assets = s.technical.assets in
      let (a1, e1, h1) = >>=-eq-ok (set_accounts source a) _ h in
      let (pool, e2, h2) =
        >>=-eq-ok (tech_account_id_to_account_id technical_env a1.pool_account) _ h1 in
      let (u, e3, h3) = >>=-eq-ok (is_pool_account_valid_for env a1.pool_account s) _ h2 in
      let (ss, e4, h4) = >>=-eq-ok (free_balance assets_env a1.source.asset source assets) _ h3 in
      let (st, e5, h5) = >>=-eq-ok (free_balance assets_env a1.source.asset pool assets) _ h4 in
      let (tt', e6, h6) =
        >>=-eq-ok (free_balance assets_env a1.destination.asset pool assets) _ h5 in
      let same = sym (accounts-inversion source a a1 e1) in
      (
        ss,
        st,
        tt',
        (
          ap (λ x. free_balance assets_env x.source.asset source assets) same ∙ e4,
          (
            pool,
            ap (λ x. tech_account_id_to_account_id technical_env x.pool_account) same ∙ e2,
            ap (λ x. free_balance assets_env x.source.asset pool assets) same ∙ e5,
            ap (λ x. free_balance assets_env x.destination.asset pool assets) same ∙ e6,
          ),
        ),
        ap (settle env ss st tt') same ∙ h6,
      )

  concrete-prepare :
      (source : ℕ) (a a' : PairSwapAction) (s : State S L)
      → is_dummy a.source.amount ≡ false
      → is_dummy a.destination.amount ≡ false
      → prepare_and_validate env (some source) a s ≡ ok a'
      → prepare_for env source a s ≡ ok a'
  unfolding prepare_and_validate is_abstract_checking
  concrete-prepare source a a' s e f h = ground arith

  -- A preparation fills in the accounts, the output, the side of the fee, the fee and its account.
  pub filled-input :
      (source sa m : ℕ) (a a' : PairSwapAction) (s : State S L)
      → prepare_and_validate env (some source) a s ≡ ok a'
      → a.source.amount ≡ desired sa
      → a.destination.amount ≡ Bounds.min m
      → (ss st tt' out : ℕ) × (side : Bool) × HasBalances source a s ss st tt'
        × HasSettledInput ss st tt' (with_accounts source a) a' sa m out side
        × (a' ≡ filled_input side out a'.fee a'.fee_account (with_accounts source a))
  filled-input source sa m a a' s h e f =
      let (ss, st, tt', known, g) =
        prepare-inversion source a a' s
          (concrete-prepare source a a' s (ap is_dummy e) (ap is_dummy f) h) in
      let (out, side, settled, filled) =
        settled-input ss st tt' sa m (with_accounts source a) a' g e f in
      (ss, st, tt', out, side, known, settled, filled)

  -- A swap of an exact input that passes the checks is for the signer; the amount that goes out is
  -- the pool's price for the input, is not below the wanted minimum and not above what the pool has,
  -- and the signer has the input, which is positive.
  pub exact_input_lem :
      (source sa m : ℕ) (a a' : PairSwapAction) (s : State S L)
      → prepare_and_validate env (some source) a s ≡ ok a'
      → a.source.amount ≡ desired sa
      → a.destination.amount ≡ Bounds.min m
      → (ss st tt' out : ℕ) × (side : Bool) × HasBalances source a s ss st tt'
        × HasSettledInput ss st tt' (with_accounts source a) a' sa m out side
  exact_input_lem source sa m a a' s h e f =
      let (ss, st, tt', out, side, known, settled, filled) =
        filled-input source sa m a a' s h e f in
      (ss, st, tt', out, side, known, settled)

  -- A swap for an exact output that passes the checks is for the signer; the amount that comes in is
  -- the pool's price for the output, is not above the wanted maximum nor above what the signer has,
  -- and the pool has the output, which is positive.
  pub exact_output_lem :
      (source sa_max ta : ℕ) (a a' : PairSwapAction) (s : State S L)
      → prepare_and_validate env (some source) a s ≡ ok a'
      → a.source.amount ≡ Bounds.max sa_max
      → a.destination.amount ≡ desired ta
      → (ss st tt' x_in : ℕ) × (side : Bool) × HasBalances source a s ss st tt'
        × HasSettledOutput ss st tt' (with_accounts source a) a' sa_max ta x_in side
  exact_output_lem source sa_max ta a a' s h e f =
      let (ss, st, tt', known, g) =
        prepare-inversion source a a' s
          (concrete-prepare source a a' s (ap is_dummy e) (ap is_dummy f) h) in
      let (x_in, side, settled) =
        settled-output ss st tt' sa_max ta (with_accounts source a) a' g e f in
      (ss, st, tt', x_in, side, known, settled)

  -- A swap that the extrinsic `create_swap` refuses moves nothing: the storage is as it was.
  pub pair_swap-atomic :
      (swap_success : ℕ → State S L → State S L) (origin : Option ℕ) (a : PairSwapAction)
      (s : State S L) {e : DispatchError}
      → (create_swap (pair_swap_rules env) swap_success origin a s).0 ≡ err e
      → (create_swap (pair_swap_rules env) swap_success origin a s).1 ≡ s
  unfolding pair_swap_rules
  pair_swap-atomic swap_success origin a s h =
      create_swap-atomic (pair_swap_rules env) swap_success origin a s (λ source. refl) h
