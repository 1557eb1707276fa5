-- ===== src/Permissions/Tests.antt =====
-- Runs of pallets/permissions/src/lib.rs, and its theorems at concrete states.
use sora2_parachain.Prelude.{
  ℕ, ◌≡◌, refl, ◌⊎◌, ◌↔◌, true, false, ◌||◌, ◌&&◌, none, some, List, [], ◌∷◌, arith, nat_eq, eq_ℕ,
  eq_pair, length,
}
use sora2_parachain.Common.Errors.{DispatchError, PermissionsError}
use sora2_parachain.Common.Result.{ok, err}
use sora2_parachain.Common.Storage.{get}
use sora2_parachain.Common.FrameSystem.{FrameSystem, counting}
use sora2_parachain.Permissions.Defs.{
  Scope, limited, unlimited, scope_eq, eq_scope, permit, forbid, State, contains, position,
  binary_search, insert_permission, has_no_entries,
}
use sora2_parachain.Permissions.Operations.{
  permissions_of, owners_of, check_permission_with_scope, grant_permission_with_scope,
  transfer_permission, assign_permission,
}
use sora2_parachain.Permissions.Genesis.{genesis_build}
use sora2_parachain.Permissions.Invariant.{IsValid, Step, Reach, genesis-IsValid}
use sora2_parachain.Permissions.Access.{holds, check_permission_iff, grant_lem}
use sora2_parachain.Permissions.Ownership.{transfer_lem}

abbrev alice : ℕ
alice = 1

abbrev bob : ℕ
bob = 2

-- Alice owns the burning in all scopes and may mint; Bob may not transfer in scope 9.
abbrev sample : State ℕ
sample = record {
  owners = ((3, unlimited), alice ∷ []) ∷ [];
  modes = (1, forbid) ∷ (2, permit) ∷ (3, permit) ∷ [];
  permissions = ((alice, unlimited), 2 ∷ []) ∷ ((bob, limited 9), 1 ∷ 5 ∷ []) ∷ [];
  system = 4;
  events = [];
}

-- A system in which nobody can be counted any more.
abbrev full : FrameSystem ℕ
full = record counting { inc_consumers = λ a s. none }

abbrev genesis_permissions : List (ℕ × Scope × List ℕ)
genesis_permissions = (alice, unlimited, 5 ∷ 2 ∷ 3 ∷ []) ∷ []

check_runs :
    (check_permission_with_scope alice 2 (limited 7) sample ≡ ok tt)
    × (check_permission_with_scope bob 1 (limited 9) sample
        ≡ err (DispatchError.permissions PermissionsError.forbidden))
    × (check_permission_with_scope bob 1 unlimited sample ≡ ok tt)
    × (check_permission_with_scope bob 77 unlimited sample
        ≡ err (DispatchError.permissions PermissionsError.permission_not_found))
unfolding check_permission_with_scope binary_search
check_runs = (refl, refl, refl, refl)

grant_runs :
    (grant_permission_with_scope counting alice bob 3 (limited 9) sample).1.permissions
    ≡ ((alice, unlimited), 2 ∷ []) ∷ ((bob, limited 9), 1 ∷ 3 ∷ 5 ∷ []) ∷ []
unfolding grant_permission_with_scope insert_permission has_no_entries contains
grant_runs = refl

abbrev sorted_genesis : State ℕ
sorted_genesis = record {
  owners = [];
  modes =
      (1, forbid)
      ∷ (2, permit)
      ∷ (3, permit)
      ∷ (4, permit)
      ∷ (5, permit)
      ∷ (6, permit)
      ∷ (7, permit)
      ∷ (8, permit)
      ∷ (9, permit)
      ∷ (13, permit)
      ∷ (10, permit)
      ∷ (11, permit)
      ∷ (12, permit)
      ∷ [];
  permissions = ((alice, unlimited), 2 ∷ 3 ∷ 5 ∷ []) ∷ [];
  system = 1;
  events = [];
}

genesis_runs : genesis_build counting [] genesis_permissions 0 ≡ some sorted_genesis
unfolding genesis_build
genesis_runs = refl

sample-IsValid : IsValid sample
sample-IsValid who sc = ground arith

check_permission_iff_example : (check_permission_with_scope alice 2 (limited 7) sample ≡ ok tt) ↔ (
    (get sample.modes 2 ≡ some permit) × (holds sample alice (limited 7) 2 ≡ true)
    ⊎ (get sample.modes 2 ≡ some forbid) × (holds sample alice (limited 7) 2 ≡ false))
check_permission_iff_example = check_permission_iff alice 2 (limited 7) sample sample-IsValid

grant_lem_example :
    let t = (grant_permission_with_scope counting alice bob 3 (limited 9) sample).1 in
    ((contains (owners_of sample 3 (limited 9)) alice
        || contains (owners_of sample 3 unlimited) alice)
      ≡ true)
    × (contains (permissions_of t bob (limited 9)) 3 ≡ (
        (nat_eq bob bob && scope_eq (limited 9) (limited 9) && nat_eq 3 3)
        || contains (permissions_of sample bob (limited 9)) 3))
    × (t.owners ≡ sample.owners)
    × (t.modes ≡ sample.modes)
unfolding grant_permission_with_scope insert_permission has_no_entries contains
grant_lem_example = grant_lem counting alice bob 3 bob 3 (limited 9) (limited 9) sample refl

transfer_lem_example :
    let t = (transfer_permission counting alice bob 3 unlimited sample).1 in
    (contains (owners_of sample 3 unlimited) alice ≡ true)
    × (contains (owners_of t 3 unlimited) bob ≡ true)
    × (length (owners_of t 3 unlimited) ≡ length (owners_of sample 3 unlimited))
    × (t.permissions ≡ sample.permissions)
unfolding transfer_permission position
transfer_lem_example = transfer_lem counting alice bob 3 unlimited sample refl

genesis-IsValid_example :
    IsValid (assign_permission counting bob alice 4 (limited 9) sorted_genesis).1
genesis-IsValid_example =
    genesis-IsValid counting [] genesis_permissions 0 genesis_runs
      (Reach.next Reach.here (Step.assign bob alice 4 (limited 9)))
