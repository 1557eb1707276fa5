-- ===== src/Prelude/Equality.antt =====
-- `PartialEq`: the equality tests of keys and identifiers, as instances.
use Prim.Native.Nat.{ℕ}
use mathlib.Core.Path.{◌≡◌}
use mathlib.Core.Logic.{◌↔◌}
use mathlib.Core.Bool.{Bool, true, ◌&&◌}
use native.Mathlib.Omega.{arith}
use sora2_parachain.Prelude.Tests.{nat_eq, nat_eq_iff}

pub record Eq {ℓ} (A : Type ℓ) : Type ℓ where
  pub same : A → A → Bool
  pub same_iff : (a b : A) → (same a b ≡ true) ↔ (a ≡ b)

instance abbrev pub eq_ℕ : Eq ℕ
eq_ℕ = record { same = nat_eq; same_iff = nat_eq_iff }

abbrev pub pair_eq {ℓ κ} :
    {A : Type ℓ} {B : Type κ} → (A → A → Bool) → (B → B → Bool) → A × B → A × B → Bool
pair_eq f g (a, b) (c, d) = f a c && g b d

pub pair_eq_iff {ℓ κ} :
    {A : Type ℓ} {B : Type κ} (e : Eq A) (f : Eq B) (p q : A × B)
    → (pair_eq e.same f.same p q ≡ true) ↔ (p ≡ q)
pair_eq_iff e f (a, b) (c, d) = ground (arith, e.same_iff a c, f.same_iff b d)

instance abbrev pub eq_pair {ℓ κ} : {A : Type ℓ} {B : Type κ} ⦃e : Eq A⦄ ⦃f : Eq B⦄ → Eq (A × B)
eq_pair ⦃e⦄ ⦃f⦄ = record { same = pair_eq e.same f.same; same_iff = pair_eq_iff e f }
