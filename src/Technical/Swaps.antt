-- ===== src/Technical/Swaps.antt =====
-- pallets/technical/src/lib.rs: `perform_create_swap` over any swap action. The traits `SwapAction`
-- and `SwapRulesValidation` of common/src/traits.rs are the record `SwapAction`.
use sora2_parachain.Prelude.{
  ℕ, ◌≡◌, refl, ap, ◌∙◌, Bool-cases, inl, inr, Bool, not, Option, none, some, arith, if◌then◌else◌,
}
use sora2_parachain.Common.Errors.{DispatchError, TechnicalError}
use sora2_parachain.Common.Result.{Result, ok, err}
use sora2_parachain.Common.Effects.{
  Effect, ◌>>=◌, ◌>>◌, raise, gets, modify, require, with_transaction, bind_at,
}

-- A swap action `A` on a storage `C`. `prepare_and_validate` returns the prepared action.
pub record SwapAction (C A : Type 0) : Type 0 where
  pub is_abstract_checking : A → Bool
  pub prepare_and_validate : Option ℕ → A → Effect C A
  pub instant_auto_claim_used : A → Bool
  pub triggered_auto_claim_used : A → Bool
  pub is_able_to_claim : A → Bool
  pub reserve : ℕ → A → Effect C (Unit {0})
  pub claim : ℕ → A → C → Bool
  pub cancel : ℕ → A → Effect C (Unit {0})

abbrev not_implemented : {C : Type 0} → Effect C (Unit {0})
not_implemented = raise (DispatchError.technical TechnicalError.not_implemented)

-- `swap_success` deposits the event `SwapSuccess`.
module _ {C A : Type 0} (rules : SwapAction C A) (swap_success : ℕ → C → C) where
  open rules use {
    is_abstract_checking, prepare_and_validate, instant_auto_claim_used, triggered_auto_claim_used,
    is_able_to_claim, reserve, claim, cancel,
  }

  abbrev pub claim_or_cancel : ℕ → A → Effect C (Unit {0})
  claim_or_cancel source action = do
    claimed ← gets (claim source action)
    if claimed
        then modify (swap_success source)
        else (if not (triggered_auto_claim_used action)
            then cancel source action
            else not_implemented)

  unfoldable pub perform_create_swap_unchecked : ℕ → A → Effect C (Unit {0})
  perform_create_swap_unchecked source action = with_transaction do
    reserve source action
    if is_able_to_claim action
        then (if instant_auto_claim_used action
            then claim_or_cancel source action
            else not_implemented)
        else not_implemented

  unfoldable pub perform_create_swap : ℕ → A → Effect C (Unit {0})
  unfolding perform_create_swap_unchecked
  perform_create_swap source action = do
    require (not (is_abstract_checking action))
        (DispatchError.technical TechnicalError.operation_with_abstract_checking)
    action' ← prepare_and_validate (some source) action
    perform_create_swap_unchecked source action'

  -- The extrinsic.
  unfoldable pub create_swap : Option ℕ → A → Effect C (Unit {0})
  unfolding perform_create_swap
  create_swap none action = raise DispatchError.bad_origin
  create_swap (some source) action = perform_create_swap source action

  unchecked-atomic :
      (source : ℕ) (action : A) (c : C) {e : DispatchError}
      → (perform_create_swap_unchecked source action c).0 ≡ err e
      → (perform_create_swap_unchecked source action c).1 ≡ c
  unfolding perform_create_swap_unchecked with_transaction
  unchecked-atomic source action c h = ground arith

  -- A swap that fails leaves what the preparation leaves, as seen through `view`.
  module _ {V : Type 0} (view : C → V) where
    prepared-atomic :
        (source : ℕ) (r : Result DispatchError A) (c c' : C) {e : DispatchError}
        → view c' ≡ view c
        → (bind_at (r, c') (perform_create_swap_unchecked source)).0 ≡ err e
        → view (bind_at (r, c') (perform_create_swap_unchecked source)).1 ≡ view c
    prepared-atomic source (ok action) c c' same h =
        ap view (unchecked-atomic source action c' h) ∙ same
    prepared-atomic source (err x) c c' same h = same

    perform-atomic :
        (source : ℕ) (action : A) (c : C) {e : DispatchError}
        → view (prepare_and_validate (some source) action c).1 ≡ view c
        → (perform_create_swap source action c).0 ≡ err e
        → view (perform_create_swap source action c).1 ≡ view c
    unfolding perform_create_swap
    perform-atomic source action c same h = elim (Bool-cases (is_abstract_checking action)) [
      | inl yes_abstract ↦ ground arith
      | inr no_abstract ↦
          let (r, c') = prepare_and_validate (some source) action c in
          rw no_abstract
            (prepared-atomic source r c c' same (rw (no_abstract, perform_create_swap) at h))
    ]

    pub create_swap-preserves :
        (origin : Option ℕ) (action : A) (c : C) {e : DispatchError}
        → ((source : ℕ) → view (prepare_and_validate (some source) action c).1 ≡ view c)
        → (create_swap origin action c).0 ≡ err e
        → view (create_swap origin action c).1 ≡ view c
    unfolding create_swap
    create_swap-preserves none action c same h = refl
    create_swap-preserves (some source) action c same h =
        perform-atomic source action c (same source) h

  -- If the preparation changes nothing in the storage, a swap that fails changes nothing: what the
  -- reservation moved is given back.
  pub create_swap-atomic :
      (origin : Option ℕ) (action : A) (c : C) {e : DispatchError}
      → ((source : ℕ) → (prepare_and_validate (some source) action c).1 ≡ c)
      → (create_swap origin action c).0 ≡ err e
      → (create_swap origin action c).1 ≡ c
  create_swap-atomic origin action c same h =
      create_swap-preserves (λ c'. c') origin action c same h
