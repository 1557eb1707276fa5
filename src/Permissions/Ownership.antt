-- ===== src/Permissions/Ownership.antt =====
-- pallets/permissions/src/lib.rs: transfer of ownership, creation and assignment of permissions.
use sora2_parachain.Prelude.{
  ℕ, ◌≡◌, ◌≢◌, true, none, some, List, [], ◌∷◌, ◌++◌, arith, Option-cases, inl, inr, eq_ℕ, eq_pair,
  set, length,
}
use sora2_parachain.Common.Errors.{DispatchError, PermissionsError}
use sora2_parachain.Common.Result.{ok, err}
use sora2_parachain.Common.Storage.{get, get-insert_self}
use sora2_parachain.Common.FrameSystem.{FrameSystem}
use sora2_parachain.Permissions.Defs.{
  Scope, eq_scope, Mode, permit, State, contains, position, insert_permission,
}
use sora2_parachain.Permissions.Operations.{
  permissions_of, owners_of, transfer_permission, create_permission, assign_permission,
}
use sora2_parachain.Permissions.Sorted.{contains-insert_permission, insert_permission-reports}
use sora2_parachain.Permissions.Invariant.{IsValid, assign-IsValid}

contains-position :
    (os : List ℕ) (a b : ℕ) {i : ℕ}
    → position os a ≡ some i
    → (contains os a ≡ true) × (contains (set os i b) b ≡ true) × (length (set os i b) ≡ length os)
unfolding position contains
contains-position [] a b h = absurd (ground arith)
contains-position (o ∷ os) a b {i} h = elim (Option-cases (position os a)) [
  | inl e ↦ ground arith
  | inr (j, e) ↦ ground (arith, contains-position os a b e)
]

contains-append : (os : List ℕ) (a : ℕ) → contains (os ++ (a ∷ [])) a ≡ true
unfolding contains
contains-append [] a = ground arith
contains-append (o ∷ os) a = ground (arith, contains-append os a)

module _ {S : Type 0} (frame : FrameSystem S) where
  open frame use {inc_consumers, dec_consumers}

  -- A transfer of ownership that succeeds was made by an owner; the new owner takes a place among
  -- as many owners, and who holds the permission does not change.
  pub transfer_lem :
      (who account id : ℕ) (sc : Scope) (s : State S)
      → (transfer_permission frame who account id sc s).0 ≡ ok tt
      → let t = (transfer_permission frame who account id sc s).1 in
        (contains (owners_of s id sc) who ≡ true)
        × (contains (owners_of t id sc) account ≡ true)
        × (length (owners_of t id sc) ≡ length (owners_of s id sc))
        × (t.permissions ≡ s.permissions)
  unfolding transfer_permission
  transfer_lem who account id sc s h = elim (Option-cases (position (owners_of s id sc) who)) [
    | inl e ↦ absurd (ground arith)
    | inr (i, e) ↦ ground (
      arith,
      contains-position (owners_of s id sc) who account e,
      get-insert_self s.owners (id, sc) (set (owners_of s id sc) i account),
    )
  ]

  -- After a creation that succeeds the permission has the mode, the owner and the holder that the
  -- call named, and no call creates it again.
  pub create_lem :
      (owner account id owner' account' : ℕ) (sc sc' : Scope) (mode mode' : Mode) (s : State S)
      → (create_permission frame owner account id sc mode s).0 ≡ ok tt
      → let t = (create_permission frame owner account id sc mode s).1 in
        (get s.modes id ≡ none)
        × (get t.modes id ≡ some mode)
        × (contains (owners_of t id sc) owner ≡ true)
        × (contains (permissions_of t account sc) id ≡ true)
        × (create_permission frame owner' account' id sc' mode' t
            ≡ (err (DispatchError.permissions PermissionsError.permission_already_exists), t))
  unfolding create_permission
  create_lem owner account id owner' account' sc sc' mode mode' s h =
      let ps = permissions_of s account sc in
      ground (
        arith,
        get-insert_self s.modes id mode,
        get-insert_self s.owners (id, sc) (owners_of s id sc ++ (owner ∷ [])),
        get-insert_self s.permissions (account, sc) (insert_permission ps id).0,
        contains-append (owners_of s id sc) owner,
        contains-insert_permission ps id id,
      )

  assign-owner :
      (owner holder id : ℕ) (sc : Scope) (s : State S)
      → get s.modes id ≡ some permit
      → (assign_permission frame owner holder id sc s).0 ≡ ok tt
      → let t = (assign_permission frame owner holder id sc s).1 in
        (contains (owners_of t id sc) owner ≡ true)
        × (contains (permissions_of t holder sc) id ≡ true)
        × (t.modes ≡ s.modes)
  unfolding assign_permission
  assign-owner owner holder id sc s permits h =
      let ps = permissions_of s holder sc in
      let os = owners_of s id sc in
      ground (
        arith,
        get-insert_self s.owners (id, sc) os,
        get-insert_self s.owners (id, sc) (os ++ (owner ∷ [])),
        get-insert_self s.permissions (holder, sc) (insert_permission ps id).0,
        contains-append os owner,
        contains-insert_permission ps id id,
      )

  -- An assignment to an owner of a permission that the holder holds already is refused.
  assign-repeated :
      (owner holder id : ℕ) (sc : Scope) (t : State S)
      → IsValid t
      → get t.modes id ≡ some permit
      → contains (owners_of t id sc) owner ≡ true
      → contains (permissions_of t holder sc) id ≡ true
      → (assign_permission frame owner holder id sc t).0 ≢ ok tt
  unfolding assign_permission
  assign-repeated owner holder id sc t v permits owned held h =
      ground (arith, insert_permission-reports (permissions_of t holder sc) id (v holder sc))

  -- After an assignment of a permission with mode `Permit` that succeeds the owner owns it, the
  -- holder holds it, and the same assignment does not succeed again.
  pub assign_lem :
      (owner holder id : ℕ) (sc : Scope) (s : State S)
      → IsValid s
      → get s.modes id ≡ some permit
      → (assign_permission frame owner holder id sc s).0 ≡ ok tt
      → let t = (assign_permission frame owner holder id sc s).1 in
        (contains (owners_of t id sc) owner ≡ true)
        × (contains (permissions_of t holder sc) id ≡ true)
        × ((assign_permission frame owner holder id sc t).0 ≢ ok tt)
  assign_lem owner holder id sc s v permits h =
      let t = (assign_permission frame owner holder id sc s).1 in
      let owned = assign-owner owner holder id sc s permits h in
      (
        owned.0,
        owned.1,
        assign-repeated owner holder id sc t (assign-IsValid frame owner holder id sc s v)
            (rw (owned.2) permits) owned.0 owned.1,
      )
