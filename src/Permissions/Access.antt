-- ===== src/Permissions/Access.antt =====
-- pallets/permissions/src/lib.rs: what a check answers, and what a grant, a transfer of ownership,
-- a creation and an assignment change in it.
use sora2_parachain.Prelude.{
  ℕ, ◌≡◌, ◌⊎◌, ◌↔◌, Bool, true, false, ◌||◌, ◌&&◌, some, arith, nat_eq, nat_eq_iff, eq_ℕ, eq_pair,
  if◌then◌else◌,
}
use sora2_parachain.Common.Errors.{DispatchError, PermissionsError}
use sora2_parachain.Common.Result.{ok, err}
use sora2_parachain.Common.Storage.{get, get-insert}
use sora2_parachain.Common.FrameSystem.{FrameSystem}
use sora2_parachain.Permissions.Defs.{
  Scope, limited, unlimited, scope_eq, scope_eq_iff, eq_scope, permit, forbid, State, contains,
  insert_permission, is_empty,
}
use sora2_parachain.Permissions.Operations.{
  permissions_of, owners_of, hold, check_permission_with_scope, grant_permission_with_scope,
}
use sora2_parachain.Permissions.Sorted.{is_ok-binary_search, contains-insert_permission}
use sora2_parachain.Permissions.Invariant.{IsValid}

module _ {S : Type 0} where
  -- Whether the account has the permission in the scope, or in all scopes.
  abbrev pub holds : State S → ℕ → Scope → ℕ → Bool
  holds s who sc id =
      contains (permissions_of s who sc) id || contains (permissions_of s who unlimited) id

  -- A check succeeds exactly when the permission exists and the account holds it, if its mode is
  -- `Permit`, or does not hold it, if its mode is `Forbid`; the scope `Unlimited` counts for all.
  pub check_permission_iff :
      (who id : ℕ) (sc : Scope) (s : State S)
      → IsValid s
      → (check_permission_with_scope who id sc s ≡ ok tt) ↔ (
          (get s.modes id ≡ some permit) × (holds s who sc id ≡ true)
          ⊎ (get s.modes id ≡ some forbid) × (holds s who sc id ≡ false))
  unfolding check_permission_with_scope
  check_permission_iff who id sc s v = ground (
    arith,
    scope_eq_iff sc unlimited,
    is_ok-binary_search (permissions_of s who sc) id (v who sc),
    is_ok-binary_search (permissions_of s who unlimited) id (v who unlimited),
  )

  -- What `hold` changes, read through `contains`.
  held :
      (account id w j : ℕ) (sc c : Scope) (s : State S)
      → contains (permissions_of (hold account sc id s) w c) j
        ≡ ((nat_eq account w && scope_eq sc c && nat_eq id j) || contains (permissions_of s w c) j)
  held account id w j sc c s =
      let ps = (insert_permission (permissions_of s account sc) id).0 in
      ground (
        arith,
        get-insert s.permissions (account, sc) (w, c) ps,
        eq_pair.same_iff (account, sc) (w, c),
        nat_eq_iff account w,
        scope_eq_iff sc c,
        contains-insert_permission (permissions_of s account sc) id j,
      )

  module _ (frame : FrameSystem S) where
    -- A grant that succeeds was made by an owner of the permission, in the scope or in all scopes.
    -- After it an account `w` holds in a scope `c` just what it held, and the granted permission if
    -- it is the grantee and the scope is that of the grant; owners and modes stay as they were.
    pub grant_lem :
        (who account id w j : ℕ) (sc c : Scope) (s : State S)
        → (grant_permission_with_scope frame who account id sc s).0 ≡ ok tt
        → let t = (grant_permission_with_scope frame who account id sc s).1 in
          ((contains (owners_of s id sc) who || contains (owners_of s id unlimited) who) ≡ true)
          × (contains (permissions_of t w c) j ≡ (
              (nat_eq account w && scope_eq sc c && nat_eq id j)
              || contains (permissions_of s w c) j))
          × (t.owners ≡ s.owners)
          × (t.modes ≡ s.modes)
    unfolding grant_permission_with_scope
    grant_lem who account id w j sc c s h = (
      ground (arith, scope_eq_iff sc unlimited),
      ground (arith, held account id w j sc c s),
      ground arith,
      ground arith,
    )

    -- A grant by an account that owns the permission neither in the limited scope nor in all
    -- scopes changes nothing. Its error tells whether the permission has owners in all scopes:
    -- the owners in the limited scope itself do not count.
    pub grant-not_owner :
        (who account id n : ℕ) (s : State S)
        → contains (owners_of s id (limited n)) who ≡ false
        → contains (owners_of s id unlimited) who ≡ false
        → grant_permission_with_scope frame who account id (limited n) s ≡ (
          err (
              DispatchError.permissions (
                if is_empty (owners_of s id unlimited)
                then PermissionsError.permission_not_found
                else PermissionsError.permission_not_owned)),
          s,
        )
    unfolding grant_permission_with_scope
    grant-not_owner who account id n s h k = ground arith
