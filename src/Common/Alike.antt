-- ===== src/Common/Alike.antt =====
-- common/src/lib.rs: two effects that agree, but where the one fails with an error of its own.
use sora2_parachain.Prelude.{◌≡◌, ap, refl, ◌⊎◌, inl, inr}
use sora2_parachain.Common.Errors.{DispatchError}
use sora2_parachain.Common.Result.{Result, ok, err}
use sora2_parachain.Common.Effects.{
  Effect, ◌>>=◌, bind_at, with_transaction, with_transaction-rollback, commit_or_rollback,
}

-- `allowed y` says of which outcomes of the second effect the first may fail with `e`.
module _ {S B : Type 0} (e : DispatchError) (allowed : B → Type 0) where
  -- Both are the same, or the first is the error and the second an allowed outcome.
  abbrev pub IsAlikeAt : Result DispatchError B × S → Result DispatchError B × S → Type 0
  IsAlikeAt p q = (p ≡ q) ⊎ ((y : B) × (t : S) × allowed y × (p ≡ (err e, p.1)) × (q ≡ (ok y, t)))

  abbrev pub IsAlike : Effect S B → Effect S B → Type 0
  IsAlike m n = (s : S) → IsAlikeAt (m s) (n s)

  bound-IsAlike :
      {A : Type 0} (r : Result DispatchError A × S) (f g : A → Effect S B)
      → ((x : A) → IsAlike (f x) (g x))
      → IsAlikeAt (bind_at r f) (bind_at r g)
  bound-IsAlike (ok x, s) f g h = h x s
  bound-IsAlike (err x, s) f g h = inl refl

  pub bind-IsAlike :
      {A : Type 0} (m : Effect S A) (f g : A → Effect S B)
      → ((x : A) → IsAlike (f x) (g x))
      → IsAlike (m >>= f) (m >>= g)
  bind-IsAlike m f g h s = bound-IsAlike (m s) f g h

  -- In a transaction the one that fails leaves the storage as it was.
  pub with_transaction-IsAlike :
      (m n : Effect S B) (s : S)
      → IsAlikeAt (m s) (n s)
      → (with_transaction m s ≡ with_transaction n s)
        ⊎ ((y : B) × (t : S) × allowed y
            × (with_transaction m s ≡ (err e, s))
            × (with_transaction n s ≡ (ok y, t)))
  unfolding with_transaction
  with_transaction-IsAlike m n s (inl same) = inl (ap (commit_or_rollback s) same)
  with_transaction-IsAlike m n s (inr (y, t, overflows, fails, succeeds)) =
      inr (y, t, overflows, with_transaction-rollback m s fails, ap (commit_or_rollback s) succeeds)
