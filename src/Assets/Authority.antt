-- ===== src/Assets/Authority.antt =====
-- pallets/assets/src/lib.rs: what `check_permission_maybe_with_parameters` asks of an account.
use sora2_parachain.Prelude.{ℕ, ◌≡◌, ◌↔◌, ◌⊎◌, inr, true, false, some, arith, eq_ℕ, eq_pair}
use sora2_parachain.Common.Result.{ok}
use sora2_parachain.Common.Storage.{get}
use sora2_parachain.Permissions.Defs.{
  limited, unlimited, eq_scope, permit, forbid, contains, transfer_id,
}
use sora2_parachain.Permissions.Operations.{permissions_of}
use sora2_parachain.Permissions.Invariant.{IsValid}
use sora2_parachain.Permissions.Access.{holds, check_permission_iff}
use sora2_parachain.Assets.Defs.{State, Env}
use sora2_parachain.Assets.Operations.{
  check_permission_maybe_with_parameters, ensure_asset_exists, in_currency,
}
use sora2_parachain.Assets.Transfers.{transfer_from}

module _ {S L : Type 0} (env : Env S L) where
  open env use {money, hash}

  -- The check accepts an account exactly when the permission exists and the account holds it for
  -- the asset or for all, if its mode is `Permit`, or does not hold it for all, if its mode is
  -- `Forbid`: then what it holds for the asset alone does not count.
  pub check_maybe_iff :
      (issuer id asset : ℕ) (s : State S L)
      → IsValid s.permissions
      → (check_permission_maybe_with_parameters env issuer id asset s ≡ ok tt) ↔ (
          (get (s.permissions.modes) id ≡ some permit)
            × (holds s.permissions issuer (limited (hash asset)) id ≡ true)
          ⊎ (get (s.permissions.modes) id ≡ some forbid)
            × (contains (permissions_of s.permissions issuer unlimited) id ≡ false))
  unfolding check_permission_maybe_with_parameters
  check_maybe_iff issuer id asset s v = ground (
    arith,
    check_permission_iff issuer id (limited (hash asset)) s.permissions v,
    check_permission_iff issuer id unlimited s.permissions v,
  )

  -- Where the permission to transfer has mode `Forbid`, a prohibition to transfer one asset has no
  -- effect: in a valid state, whatever the account holds in the scope of an asset that exists, its
  -- transfer is passed to the currencies if it is not forbidden all transfers.
  pub transfer-limited_prohibition :
      (asset from to amount : ℕ) (s : State S L)
      → IsValid s.permissions
      → ensure_asset_exists env asset s ≡ ok tt
      → get (s.permissions.modes) transfer_id ≡ some forbid
      → contains (permissions_of s.permissions from unlimited) transfer_id ≡ false
      → transfer_from env asset from to amount s
        ≡ in_currency env (money.transfer asset from to amount) s
  unfolding transfer_from
  transfer-limited_prohibition asset from to amount s v known mode free =
      rw (known, (check_maybe_iff from transfer_id asset s v).1 (inr (mode, free)))
