-- ===== src/DexManager.antt =====
-- The pallet `dex-manager` (pallets/dex-manager/src/lib.rs): the registered exchanges, and who may
-- manage them.
use sora2_parachain.Prelude.{
  ℕ, ◌≡◌, ◌↔◌, ◌⊎◌, true, not, ◌||◌, Option, some, List, [], ◌∷◌, map, if◌then◌else◌, eq_ℕ, arith,
}
use sora2_parachain.Common.Errors.{DispatchError, DexManagerError}
use sora2_parachain.Common.Result.{Result, ok, err, ok_or, ensure, ◌>>=◌, ◌>>◌}
use sora2_parachain.Common.Storage.{StorageMap, get, insert, contains_key}
use sora2_parachain.Common.Primitives.{
  DexInfo, ManagementMode, is_public_mode, Origin, signed, root, unsigned,
}
use sora2_parachain.Permissions.Defs.{State, limited, manage_dex_id}
use sora2_parachain.Permissions.Operations.{check_permission_with_scope}

abbrev pub failed : DexManagerError → DispatchError
failed = DispatchError.dex_manager

abbrev pub DexInfos : Type 0
DexInfos = StorageMap ℕ DexInfo

unfoldable pub get_dex_info : ℕ → DexInfos → Result DispatchError DexInfo
get_dex_info dex_id infos = ok_or (get infos dex_id) (failed DexManagerError.dex_does_not_exist)

unfoldable pub ensure_dex_exists : ℕ → DexInfos → Result DispatchError (Unit {0})
ensure_dex_exists dex_id infos =
    ensure (contains_key infos dex_id) (failed DexManagerError.dex_does_not_exist)

unfoldable pub list_dex_ids : DexInfos → List ℕ
list_dex_ids infos = map (λ e. e.0) infos

-- `GenesisConfig::build`
unfoldable pub genesis_build : List (ℕ × DexInfo) → DexInfos → DexInfos
genesis_build [] infos = infos
genesis_build ((dex_id, info) ∷ r) infos = genesis_build r (insert infos dex_id info)

-- `hash` is that of an exchange's id (`common::hash`, a `blake2b`).
module _ {S : Type 0} (hash : ℕ → ℕ) where
  unfoldable pub ensure_direct_manager : ℕ → ℕ → State S → Result DispatchError (Unit {0})
  ensure_direct_manager dex_id who perms =
      check_permission_with_scope who manage_dex_id (limited (hash dex_id)) perms

  unfoldable pub ensure_can_manage :
      ℕ → Origin → ManagementMode → DexInfos → State S → Result DispatchError (Option ℕ)
  unfolding get_dex_info ensure_direct_manager
  ensure_can_manage dex_id (signed who) mode infos perms = do
    dex_info ← get_dex_info dex_id infos
    (if not dex_info.is_public || not (is_public_mode mode)
        then ensure_direct_manager dex_id who perms
        else ok tt)
    ok (some who)
  ensure_can_manage dex_id root mode infos perms = err (failed DexManagerError.invalid_account_id)
  ensure_can_manage dex_id unsigned mode infos perms =
      err (failed DexManagerError.invalid_account_id)

  -- A signed account can manage an exchange that exists exactly if the exchange and the mode are
  -- public, or if the account passes the check of the permission to manage in the exchange's scope.
  pub ensure_can_manage_iff :
      (dex_id who : ℕ) (mode : ManagementMode) (infos : DexInfos) (perms : State S) {info : DexInfo}
      → get infos dex_id ≡ some info
      → (ensure_can_manage dex_id (signed who) mode infos perms ≡ ok (some who)) ↔ (
          (info.is_public ≡ true) × (is_public_mode mode ≡ true)
          ⊎ (check_permission_with_scope who manage_dex_id (limited (hash dex_id)) perms ≡ ok tt))
  unfolding ensure_can_manage
  ensure_can_manage_iff dex_id who mode infos perms {info} e = rw e (ground arith)
