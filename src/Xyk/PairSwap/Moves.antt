-- ===== src/Xyk/PairSwap/Moves.antt =====
-- pallets/pool-xyk/src/action_pair_swap.rs: what a reservation of an exact-input swap moves.
use sora2_parachain.Prelude.{ℕ, ◌≡◌, ap, sym, subst, Bool, true, false, Option, some, nat_eq}
use sora2_parachain.Common.Errors.{DispatchError, XykError}
use sora2_parachain.Common.Result.{Result, ok}
use sora2_parachain.Common.Primitives.{TechAccountId}
use sora2_parachain.Common.Effects.{
  bind-eq-ok, reads-eq-ok, require-eq-ok, with_transaction-eq-ok, on_part-eq-ok,
}
use sora2_parachain.Technical
use sora2_parachain.Technical.{tech_account_id_to_account_id, transfer_in, transfer_out}
use sora2_parachain.Technical.Swaps.{perform_create_swap_unchecked}
use sora2_parachain.Assets.Transfers.{free_balance}
use sora2_parachain.Xyk.Bounds.{Bounds, desired}
use sora2_parachain.Xyk.Bounds
use sora2_parachain.Xyk.Math.{failed, wrapping_sub}
use sora2_parachain.Xyk.Defs.{PairSwapAction, State, Env, update_reserves}
use sora2_parachain.Xyk.PairSwap.Prepare.{unwrapped}
use sora2_parachain.Xyk.PairSwap.Reserve.{in_technical, move_amounts, record_reserves, reserve}
use sora2_parachain.Xyk.PairSwap.Inversion.{unwrapped-some, with_accounts}
use sora2_parachain.Xyk.PairSwap.Limits.{filled_input}
use sora2_parachain.Xyk.Pallet.Trades.{exchange_action}
use sora2_parachain.Xyk.Liquidity.Actions.{pair_swap, poly_swap_rules}

module _ {S L : Type 0} (env : Env S L) where
  open env use {technical_env}
  open technical_env use {assets_env}

  -- The three transfers of a swap of `sa` of `input` for `out` of `output`, one after the other,
  -- with the fee kept back from the output (`true`) or from the input.
  abbrev pub IsMoved :
      Bool
      → (sender receiver : ℕ) (tech fee_account : TechAccountId)
      → (fee_repr input output sa out fee : ℕ) → Technical.State S L
      → Technical.State S L
      → Type 0
  IsMoved true sender receiver tech fee_account fee_repr input output sa out fee t t' =
      (t1 t2 : Technical.State S L) × (transfer_in technical_env input sender tech sa t
        ≡ (ok tt, t1))
      × (transfer_out technical_env output tech fee_repr fee t1 ≡ (ok tt, t2))
      × (transfer_out technical_env output tech receiver (wrapping_sub out fee) t2 ≡ (ok tt, t'))
  IsMoved false sender receiver tech fee_account fee_repr input output sa out fee t t' =
      (t1 t2 : Technical.State S L) × (transfer_in technical_env input sender tech
          (wrapping_sub sa fee) t
        ≡ (ok tt, t1))
      × (transfer_in technical_env input sender fee_account fee t1 ≡ (ok tt, t2))
      × (transfer_out technical_env output tech receiver out t2 ≡ (ok tt, t'))

  IsMoved-inversion :
      (side : Bool) (sender receiver sa out fee fee_repr : ℕ) (a : PairSwapAction)
      (fee_account : TechAccountId) (t t' : Technical.State S L)
      → move_amounts env side sender receiver a fee_account fee_repr sa out fee t ≡ (ok tt, t')
      → IsMoved side sender receiver a.pool_account fee_account fee_repr a.source.asset
          a.destination.asset sa out fee t t'
  unfolding move_amounts
  IsMoved-inversion true sender receiver sa out fee fee_repr a fee_account t t' h =
      let (u1, t1, e1, h1) =
        bind-eq-ok (transfer_in technical_env a.source.asset sender a.pool_account sa) _ t h in
      let (u2, t2, e2, h2) =
        bind-eq-ok (transfer_out technical_env a.destination.asset a.pool_account fee_repr fee) _ t1
          h1 in
      (t1, t2, e1, e2, h2)
  IsMoved-inversion false sender receiver sa out fee fee_repr a fee_account t t' h =
      let (u1, t1, e1, h1) =
        bind-eq-ok
          (transfer_in technical_env a.source.asset sender a.pool_account (wrapping_sub sa fee)) _ t
          h in
      let (u2, t2, e2, h2) =
        bind-eq-ok (transfer_in technical_env a.source.asset sender fee_account fee) _ t1 h1 in
      (t1, t2, e1, e2, h2)

  -- The reserves of the pair are what the pool has after the transfers that lead to `t`.
  abbrev pub IsRecorded :
      (tech : TechAccountId) (input output : ℕ)
      → Technical.State S L
      → State S L
      → State S L
      → Type 0
  IsRecorded tech input output t s s' =
      (pool bi bo : ℕ) × (tech_account_id_to_account_id technical_env tech ≡ ok pool)
      × (free_balance assets_env input pool t.assets ≡ ok bi)
      × (free_balance assets_env output pool t.assets ≡ ok bo)
      × (s' ≡ update_reserves env input output (bi, bo) (record s { technical = t }))

  same_state :
      {s s' : State S L}
      → ◌≡◌ {A = Result DispatchError (Unit {0}) × State S L} (ok tt, s) (ok tt, s')
      → s' ≡ s
  same_state h = ap (λ r. r.1) (sym h)

  IsRecorded-inversion :
      (a : PairSwapAction) (t : Technical.State S L) (s s' : State S L)
      → record_reserves env a (record s { technical = t }) ≡ (ok tt, s')
      → IsRecorded a.pool_account a.source.asset a.destination.asset t s s'
  unfolding record_reserves
  IsRecorded-inversion a t s s' h =
      let s0 : State S L = record s { technical = t } in
      let (pool, e1, h1) =
        reads-eq-ok (λ s. tech_account_id_to_account_id technical_env a.pool_account) _ s0 h in
      let (bi, e2, h2) =
        reads-eq-ok (λ s. free_balance assets_env a.source.asset pool (s.technical.assets)) _ s0
          h1 in
      let (bo, e3, h3) =
        reads-eq-ok (λ s. free_balance assets_env a.destination.asset pool (s.technical.assets)) _
          s0 h2 in
      (pool, bi, bo, e1, e2, e3, same_state h3)

  -- What a swap of `sa` of `input` for `out` of `output` leaves: its fee and the account of the fee
  -- are known, the transfers are made, and the reserves recorded.
  abbrev pub IsSwapped :
      Bool
      → (sender receiver : ℕ) (tech : TechAccountId) (input output sa out : ℕ) → Option ℕ
      → Option TechAccountId
      → State S L
      → State S L
      → Type 0
  IsSwapped side sender receiver tech input output sa out fee_known account_known s s' =
      (fee fee_repr : ℕ) × (fee_account : TechAccountId) × (t : Technical.State S L) × (fee_known
        ≡ some fee)
      × (account_known ≡ some fee_account)
      × (tech_account_id_to_account_id technical_env fee_account ≡ ok fee_repr)
      × IsMoved side sender receiver tech fee_account fee_repr input output sa out fee s.technical t
      × IsRecorded tech input output t s s'

  pub reserve-inversion :
      (side : Bool) (sender receiver sa out m : ℕ) (tech : TechAccountId) (input output : ℕ)
      (fee_known : Option ℕ) (account_known : Option TechAccountId) (s s' : State S L)
      → reserve env sender
          (filled_input env side out fee_known account_known (
            with_accounts sender
              (exchange_action receiver tech input output (desired sa, Bounds.min m))))
          s
        ≡ (ok tt, s')
      → IsSwapped side sender receiver tech input output sa out fee_known account_known s s'
  unfolding reserve Bounds.unwrap
  reserve-inversion side sender receiver sa out m tech input output fee_known account_known s s' h =
      let a = filled_input env side out fee_known account_known (
        with_accounts sender
          (exchange_action receiver tech input output (desired sa, Bounds.min m))) in
      let (u1, h1) =
        require-eq-ok (nat_eq sender sender)
          (failed XykError.source_and_client_account_do_not_match) _ s
          (with_transaction-eq-ok _ s h) in
      let (fee_account, e2, h2) = reads-eq-ok (λ s. unwrapped account_known) _ s h1 in
      let (fee_repr, e3, h3) =
        reads-eq-ok (λ s. tech_account_id_to_account_id technical_env fee_account) _ s h2 in
      let (fee, e4, h4) = reads-eq-ok (λ s. unwrapped fee_known) _ s h3 in
      let (u5, s5, e5, h5) =
        bind-eq-ok
          (in_technical env
            (move_amounts env side sender receiver a fee_account fee_repr sa out fee))
          _ s h4 in
      let (t, e6, e7) =
        on_part-eq-ok (λ s. s.technical) (λ s t. record s { technical = t })
          (move_amounts env side sender receiver a fee_account fee_repr sa out fee) s e5 in
      (
        fee,
        fee_repr,
        fee_account,
        t,
        unwrapped-some fee_known e4,
        unwrapped-some account_known e2,
        e3,
        IsMoved-inversion side sender receiver sa out fee fee_repr a fee_account s.technical t e6,
        IsRecorded-inversion a t s s' (subst (λ s. record_reserves env a s ≡ (ok tt, s')) e7 h5),
      )

  -- A swap that is performed is claimed at once, which only deposits its event.
  pub performed-inversion :
      (swap_success : ℕ → State S L → State S L) (sender : ℕ) (a : PairSwapAction)
      (s s' : State S L)
      → perform_create_swap_unchecked (poly_swap_rules env) swap_success sender (pair_swap a) s
        ≡ (ok tt, s')
      → (s1 : State S L) × (reserve env sender a s ≡ (ok tt, s1)) × (s' ≡ swap_success sender s1)
  unfolding perform_create_swap_unchecked poly_swap_rules
  performed-inversion swap_success sender a s s' h =
      let (u, s1, e, h1) = bind-eq-ok (reserve env sender a) _ s (with_transaction-eq-ok _ s h) in
      (s1, e, same_state h1)
