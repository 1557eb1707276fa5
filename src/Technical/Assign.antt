-- ===== src/Technical/Assign.antt =====
-- The loop of `set_reserves_account_id` in pallets/bonding-curve-pool/src/lib.rs and
-- pallets/mock-liquidity-source/src/lib.rs, which assigns an account permissions over itself.
use sora2_parachain.Prelude.{ℕ, List, [], ◌∷◌}
use sora2_parachain.Common.Effects.{Effect, ◌>>◌, pure, on_part}
use sora2_parachain.Permissions.Defs.{unlimited}
use sora2_parachain.Permissions.Operations.{assign_permission}
use sora2_parachain.Technical.{State, Env, in_assets}

module _ {S L : Type 0} (env : Env S L) where
  open env use {assets_env}

  unfoldable pub assign_permissions : ℕ → List ℕ → Effect (State S L) (Unit {0})
  unfolding assign_permission
  assign_permissions account [] = pure tt
  assign_permissions account (id ∷ rest) =
      in_assets env (
        on_part (λ a. a.permissions) (λ a p. record a { permissions = p })
          (assign_permission assets_env.frame account account id unlimited))
      >> assign_permissions account rest
