-- ===== src/Common/Result.antt =====
-- Rust's `Result` with the error `E`, `?` as a bind, and `ensure!`.
use sora2_parachain.Prelude.{Bool, true, false, Option, none, some, ◌≡◌, refl, ◌⊎◌, inl, inr, arith}

pub data Result (E A : Type 0) : Type 0 where
  ok : A → Result E A
  err : E → Result E A

infixl 5 ◌>>=◌ ◌>>◌
abbrev pub ◌>>=◌ : {E A B : Type 0} → Result E A → (A → Result E B) → Result E B
ok a >>= f = f a
err e >>= f = err e

abbrev pub map_err : {E F A : Type 0} → (E → F) → Result E A → Result F A
map_err f (ok a) = ok a
map_err f (err e) = err (f e)

abbrev pub ◌>>◌ : {E B : Type 0} → Result E (Unit {0}) → Result E B → Result E B
m >> k = m >>= λ _. k

abbrev pub ensure : {E : Type 0} → Bool → E → Result E (Unit {0})
ensure true e = ok tt
ensure false e = err e

abbrev pub ok_or : {E A : Type 0} → Option A → E → Result E A
ok_or none e = err e
ok_or (some a) e = ok a

abbrev pub is_ok : {E A : Type 0} → Result E A → Bool
is_ok (ok a) = true
is_ok (err e) = false

-- `Result::or_else` with a closure that ignores the error.
abbrev pub or_else : {E A : Type 0} → Result E A → Result E A → Result E A
or_else (ok a) r = ok a
or_else (err e) r = r

module _ {E A : Type 0} where
  pub Result-cases : (r : Result E A) → ((a : A) × (r ≡ ok a)) ⊎ ((e : E) × (r ≡ err e))
  Result-cases (ok a) = inl (a, refl)
  Result-cases (err e) = inr (e, refl)

  -- Inversion of a successful bind.
  pub >>=-eq-ok :
      {B : Type 0} (first : Result E A) (rest : A → Result E B) {y : B}
      → (first >>= rest) ≡ ok y
      → (x : A) × (first ≡ ok x) × (rest x ≡ ok y)
  >>=-eq-ok (ok x) rest same = (x, refl, same)
  >>=-eq-ok (err e) rest same = absurd (ground arith)

  -- Inversion of a test that passed.
  pub ensure-eq-ok :
      (b : Bool) (e : E) (r : Result E A) {a : A}
      → (ensure b e >> r) ≡ ok a
      → (b ≡ true) × (r ≡ ok a)
  ensure-eq-ok true e r h = (refl, h)
  ensure-eq-ok false e r h = absurd (ground arith)
