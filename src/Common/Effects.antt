-- ===== src/Common/Effects.antt =====
-- Fallible code that changes storage. The storage comes back after an error too: what a call wrote
-- before it failed stays written, unless `with_transaction` (common/src/lib.rs) rolls it back.
use sora2_parachain.Prelude.{sym, ◌≡◌, ◌∙◌, ap, refl, inl, inr, arith, Bool, true, false}
use sora2_parachain.Common.Result.{Result, ok, err, Result-cases}
use sora2_parachain.Common.Errors.{DispatchError}

abbrev pub Effect : Type 0 → Type 0 → Type 0
Effect S A = S → Result DispatchError A × S

infixl 5 ◌>>=◌ ◌>>◌
abbrev pub bind_at :
    {S A B : Type 0} → Result DispatchError A × S → (A → Effect S B) → Result DispatchError B × S
bind_at (ok a, s) f = f a s
bind_at (err e, s) f = (err e, s)

abbrev pub ◌>>=◌ : {S A B : Type 0} → Effect S A → (A → Effect S B) → Effect S B
◌>>=◌ m f s = bind_at (m s) f

abbrev pub ◌>>◌ : {S B : Type 0} → Effect S (Unit {0}) → Effect S B → Effect S B
m >> k = m >>= λ _. k

module _ {S : Type 0} where
  abbrev pub pure : {A : Type 0} → A → Effect S A
  pure a s = (ok a, s)

  abbrev pub raise : {A : Type 0} → DispatchError → Effect S A
  raise e s = (err e, s)

  -- A read-only fallible call.
  abbrev pub reads : {A : Type 0} → (S → Result DispatchError A) → Effect S A
  reads f s = (f s, s)

  abbrev pub gets : {A : Type 0} → (S → A) → Effect S A
  gets f s = (ok (f s), s)

  abbrev pub modify : (S → S) → Effect S (Unit {0})
  modify f s = (ok tt, f s)

  abbrev pub require : Bool → DispatchError → Effect S (Unit {0})
  require true e s = (ok tt, s)
  require false e s = (err e, s)

abbrev pub commit_or_rollback :
    {S A : Type 0} → S → Result DispatchError A × S → Result DispatchError A × S
commit_or_rollback s (ok a, s') = (ok a, s')
commit_or_rollback s (err e, s') = (err e, s)

unfoldable pub with_transaction : {S A : Type 0} → Effect S A → Effect S A
with_transaction m s = commit_or_rollback s (m s)

-- A call on a part of the storage: `get` reads the part and `put` writes it back.
abbrev put_back :
    {S P A : Type 0} → (S → P → S) → S → Result DispatchError A × P → Result DispatchError A × S
put_back put s (r, p) = (r, put s p)

abbrev pub on_part : {S P A : Type 0} → (S → P) → (S → P → S) → Effect P A → Effect S A
on_part get put m s = put_back put s (m (get s))

-- An error leaves the storage as it was before the transaction.
pub with_transaction-rollback :
    {S A : Type 0} (m : Effect S A) (s : S) {e : DispatchError} {s' : S}
    → m s ≡ (err e, s')
    → with_transaction m s ≡ (err e, s)
unfolding with_transaction
with_transaction-rollback m s h = ap (commit_or_rollback s) h

-- Inversions of a bind that succeeded.
module _ {S : Type 0} where
  bound-eq-ok :
      {A B : Type 0} (r : Result DispatchError A × S) (f : A → Effect S B) {y : B} {s' : S}
      → bind_at r f ≡ (ok y, s')
      → (x : A) × (s1 : S) × (r ≡ (ok x, s1)) × (f x s1 ≡ (ok y, s'))
  bound-eq-ok (ok x, s1) f h = (x, s1, refl, h)
  bound-eq-ok (err e, s1) f h = absurd (ground arith)

  pub bind-eq-ok :
      {A B : Type 0} (m : Effect S A) (f : A → Effect S B) (s : S) {y : B} {s' : S}
      → (m >>= f) s ≡ (ok y, s')
      → (x : A) × (s1 : S) × (m s ≡ (ok x, s1)) × (f x s1 ≡ (ok y, s'))
  bind-eq-ok m f s h = bound-eq-ok (m s) f h

  pub reads-eq-ok :
      {A B : Type 0} (f : S → Result DispatchError A) (g : A → Effect S B) (s : S) {y : B} {s' : S}
      → (reads f >>= g) s ≡ (ok y, s')
      → (x : A) × (f s ≡ ok x) × (g x s ≡ (ok y, s'))
  reads-eq-ok f g s h = elim (Result-cases (f s)) [
    | inl (x, e) ↦ (x, e, rw e at h)
    | inr (x, e) ↦ absurd (ground arith)
  ]

  pub require-eq-ok :
      {B : Type 0} (b : Bool) (e : DispatchError) (k : Effect S B) (s : S) {y : B} {s' : S}
      → (require b e >> k) s ≡ (ok y, s')
      → (b ≡ true) × (k s ≡ (ok y, s'))
  require-eq-ok true e k s h = (refl, h)
  require-eq-ok false e k s h = absurd (ground arith)

-- Inversion of a call on a part of the storage.
module _ {S P : Type 0} (get : S → P) (put : S → P → S) where
  put_back-eq-ok :
      {A : Type 0} (s : S) (r : Result DispatchError A × P) {y : A} {s' : S}
      → put_back put s r ≡ (ok y, s')
      → (p : P) × (r ≡ (ok y, p)) × (s' ≡ put s p)
  put_back-eq-ok s (r, p) h = (p, ap (λ x. (x.0, p)) h, sym (ap (λ x. x.1) h))

  pub on_part-eq-ok :
      {A : Type 0} (m : Effect P A) (s : S) {y : A} {s' : S}
      → on_part get put m s ≡ (ok y, s')
      → (p : P) × (m (get s) ≡ (ok y, p)) × (s' ≡ put s p)
  on_part-eq-ok m s h = put_back-eq-ok s (m (get s)) h

-- What a call leaves of the storage as it was, as seen through `view`.
module _ {S V : Type 0} (view : S → V) where
  abbrev pub Preserves : {A : Type 0} → Effect S A → Type 0
  Preserves m = (s : S) → view (m s).1 ≡ view s

  bound-Preserves :
      {A B : Type 0} (r : Result DispatchError A × S) (f : A → Effect S B)
      → ((x : A) → Preserves (f x))
      → view (bind_at r f).1 ≡ view r.1
  bound-Preserves (ok x, s) f h = h x s
  bound-Preserves (err e, s) f h = refl

  pub bind-Preserves :
      {A B : Type 0} (m : Effect S A) (f : A → Effect S B)
      → Preserves m
      → ((x : A) → Preserves (f x))
      → Preserves (m >>= f)
  bind-Preserves m f h k s = bound-Preserves (m s) f k ∙ h s

  pub reads-Preserves :
      {A B : Type 0} (f : S → Result DispatchError A) (g : A → Effect S B)
      → ((x : A) → Preserves (g x))
      → Preserves (reads f >>= g)
  reads-Preserves f g = bind-Preserves (reads f) g (λ s. refl)

  pub require-Preserves : (b : Bool) (e : DispatchError) → Preserves (require b e)
  require-Preserves true e s = refl
  require-Preserves false e s = refl

-- Calls that fail.
module _ {S : Type 0} where
  abbrev pub Fails : {A : Type 0} → Effect S A → S → Type 0
  Fails m s = (e : DispatchError) × ((m s).0 ≡ err e)

  bound-Fails :
      {A B : Type 0} (r : Result DispatchError A × S) (f : A → Effect S B)
      → ((x : A) (s1 : S) → r ≡ (ok x, s1) → Fails (f x) s1)
      → (e : DispatchError) × ((bind_at r f).0 ≡ err e)
  bound-Fails (ok x, s1) f h = h x s1 refl
  bound-Fails (err e, s1) f h = (e, refl)

  pub then-Fails :
      {A B : Type 0} (m : Effect S A) (f : A → Effect S B) (s : S)
      → ((x : A) (s1 : S) → m s ≡ (ok x, s1) → Fails (f x) s1)
      → Fails (m >>= f) s
  then-Fails m f s h = bound-Fails (m s) f h

  read-Fails :
      {A B : Type 0} (r : Result DispatchError A) (g : A → Effect S B) (s : S)
      → ((x : A) → r ≡ ok x → Fails (g x) s)
      → (e : DispatchError) × ((bind_at (r, s) g).0 ≡ err e)
  read-Fails (ok x) g s h = h x refl
  read-Fails (err e) g s h = (e, refl)

  pub reads-Fails :
      {A B : Type 0} (f : S → Result DispatchError A) (g : A → Effect S B) (s : S)
      → ((x : A) → f s ≡ ok x → Fails (g x) s)
      → Fails (reads f >>= g) s
  reads-Fails f g s h = read-Fails (f s) g s h

  pub bind-Fails :
      {A B : Type 0} (m : Effect S A) (f : A → Effect S B) (s : S) → Fails m s → Fails (m >>= f) s
  bind-Fails m f s (e, h) = bound-Fails (m s) f λ x s1 same. absurd (ground arith)

  rolled :
      {A : Type 0} (r : Result DispatchError A × S) (s : S) {e : DispatchError}
      → r.0 ≡ err e
      → commit_or_rollback s r ≡ (err e, s)
  rolled (ok x, s1) s h = absurd (ground arith)
  rolled (err x, s1) s h = ap (λ y. (y, s)) h

  pub Fails-rollback :
      {A : Type 0} (m : Effect S A) (s : S)
      → Fails m s
      → (e : DispatchError) × (with_transaction m s ≡ (err e, s))
  unfolding with_transaction
  Fails-rollback m s (e, h) = (e, rolled (m s) s h)

-- Inversions of a transaction.
module _ {S : Type 0} where
  committed :
      {A : Type 0} (s : S) (r : Result DispatchError A × S) {y : A} {s' : S}
      → commit_or_rollback s r ≡ (ok y, s')
      → r ≡ (ok y, s')
  committed s (ok x, s1) h = h
  committed s (err e, s1) h = absurd (ground arith)

  pub with_transaction-eq-ok :
      {A : Type 0} (m : Effect S A) (s : S) {y : A} {s' : S}
      → with_transaction m s ≡ (ok y, s')
      → m s ≡ (ok y, s')
  unfolding with_transaction
  with_transaction-eq-ok m s h = committed s (m s) h

  rolled_back :
      {A : Type 0} (s : S) (r : Result DispatchError A × S) {e : DispatchError} {s' : S}
      → commit_or_rollback s r ≡ (err e, s')
      → s' ≡ s
  rolled_back s (ok x, s1) h = absurd (ground arith)
  rolled_back s (err x, s1) h = sym (ap (λ r. r.1) h)

  -- Whatever error a transaction returns, it changes nothing.
  pub with_transaction-eq-err :
      {A : Type 0} (m : Effect S A) (s : S) {e : DispatchError} {s' : S}
      → with_transaction m s ≡ (err e, s')
      → s' ≡ s
  unfolding with_transaction
  with_transaction-eq-err m s h = rolled_back s (m s) h

  -- A test that stands before a transaction does not change this.
  pub require-with_transaction-eq-err :
      {A : Type 0} (b : Bool) (e : DispatchError) (m : Effect S A) (s : S) {x : DispatchError}
      {s' : S}
      → (require b e >> with_transaction m) s ≡ (err x, s')
      → s' ≡ s
  require-with_transaction-eq-err true e m s h = with_transaction-eq-err m s h
  require-with_transaction-eq-err false e m s h = sym (ap (λ r. r.1) h)

  modified-eq-err :
      {A : Type 0} (r : Result DispatchError A × S) (f : A → S → S) {e : DispatchError} {s' : S}
      → bind_at r (λ x. modify (f x)) ≡ (err e, s')
      → (r.0 ≡ err e) × (r.1 ≡ s')
  modified-eq-err (ok x, s1) f h = absurd (ground arith)
  modified-eq-err (err x, s1) f h =
      (ap (λ r. elim r.0 [ ok u ↦ err x | err y ↦ err y ]) h, ap (λ r. r.1) h)

  -- A call that fails although its last step cannot has failed before that step.
  pub then_modify-eq-err :
      {A : Type 0} (m : Effect S A) (f : A → S → S) (s : S) {e : DispatchError} {s' : S}
      → (m >>= λ x. modify (f x)) s ≡ (err e, s')
      → (s1 : S) × (m s ≡ (err e, s1)) × (s' ≡ s1)
  then_modify-eq-err m f s h =
      let (e0, e1) = modified-eq-err (m s) f h in ((m s).1, ap (λ x. (x, (m s).1)) e0, sym e1)

-- Calls that change nothing when they fail.
module _ {S : Type 0} where
  abbrev pub Atomic : {A : Type 0} → Effect S A → Type 0
  Atomic m = (s : S) (e : DispatchError) (s' : S) → m s ≡ (err e, s') → s' ≡ s

  pub with_transaction-Atomic : {A : Type 0} (m : Effect S A) → Atomic (with_transaction m)
  with_transaction-Atomic m s e s' h = with_transaction-eq-err m s h

  pub reads-Atomic :
      {A B : Type 0} (f : S → Result DispatchError A) (g : A → Effect S B)
      → ((x : A) → Atomic (g x))
      → Atomic (reads f >>= g)
  reads-Atomic f g h s e s' same = elim (Result-cases (f s)) [
    | inl (x, done) ↦ h x s e s' (rw done at same)
    | inr (x, done) ↦ sym (ap (λ r. r.1) (ap (λ r. bind_at (r, s) g) (sym done) ∙ same))
  ]

  pub require-Atomic :
      {B : Type 0} (b : Bool) (e : DispatchError) (k : Effect S B)
      → Atomic k
      → Atomic (require b e >> k)
  require-Atomic true e k h s x s' same = h s x s' same
  require-Atomic false e k h s x s' same = sym (ap (λ r. r.1) same)
