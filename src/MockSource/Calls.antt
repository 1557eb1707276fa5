-- ===== src/MockSource/Calls.antt =====
-- pallets/mock-liquidity-source/src/lib.rs: the calls that write, and the extrinsics.
use sora2_parachain.Prelude.{ℕ, Option, some, none, [], ◌∷◌, ℤ}
use sora2_parachain.Common.Errors.{DispatchError, MockSourceError}
use sora2_parachain.Common.Result.{Result, ok, err}
use sora2_parachain.Common.Effects.{Effect, ◌>>=◌, ◌>>◌, reads, modify, on_part}
use sora2_parachain.Common.FrameSystem.{ensure_signed}
use sora2_parachain.Common.Primitives.{TechAccountId, Origin, public_mode}
use sora2_parachain.Permissions.Defs.{mint_id, burn_id, transfer_id}
use sora2_parachain.Technical
use sora2_parachain.Technical.{tech_account_id_to_account_id}
use sora2_parachain.Technical.Assign.{assign_permissions}
use sora2_parachain.MockSource.{State, Env, failed, set_reserves}

module _ {S L : Type 0} (env : Env S L) where
  open env use {technical_env, base_asset}
  open technical_env use {assets_env}

  abbrev pub in_technical : {A : Type 0} → Effect (Technical.State S L) A → Effect (State S L) A
  in_technical = on_part (λ s. s.technical) (λ s t. record s { technical = t })

  abbrev pub counted : State S L → Option S → Result DispatchError (Unit {0}) × State S L
  counted s none = (err (failed MockSourceError.inc_ref_error), s)
  counted s (some y) = (
    ok tt,
    record s {
      technical = record (s.technical) {
        assets = record (s.technical.assets) {
          permissions = record (s.technical.assets.permissions) { system = y };
        };
      };
    },
  )

  -- `inc_consumers`
  abbrev pub count_ref : ℕ → Effect (State S L) (Unit {0})
  count_ref account s =
      counted s (assets_env.frame.inc_consumers account s.technical.assets.permissions.system)

  -- There is no transaction around it.
  unfoldable pub set_reserves_account_id : TechAccountId → Effect (State S L) (Unit {0})
  unfolding tech_account_id_to_account_id assign_permissions
  set_reserves_account_id tech = do
    account ← reads λ s. tech_account_id_to_account_id technical_env tech
    count_ref account
    modify λ s. record s { reserves_acc = tech }
    in_technical (assign_permissions technical_env account (burn_id ∷ mint_id ∷ transfer_id ∷ []))

  unfoldable pub test_access : Origin → ℕ → ℕ → Effect (State S L) (Unit {0})
  test_access origin dex target = do
    who ← reads (env.ensure_can_manage dex origin public_mode)
    reads (env.ensure_trading_pair_exists dex base_asset target)

  unfoldable pub set_reserve : Origin → ℕ → ℕ → ℤ → ℤ → Effect (State S L) (Unit {0})
  set_reserve origin dex target base_reserve target_reserve = do
    who ← ensure_signed origin
    modify (set_reserves env dex target (base_reserve, target_reserve))
