-- ===== src/Permissions/Operations.antt =====
-- pallets/permissions/src/lib.rs: the operations of the pallet, over any `frame_system`.
use sora2_parachain.Prelude.{
  ℕ, Bool, true, false, not, ◌&&◌, ◌||◌, Option, none, some, List, [], ◌∷◌, ◌++◌, if◌then◌else◌,
  set, eq_ℕ, eq_pair,
}
use sora2_parachain.Common.Errors.{DispatchError, PermissionsError}
use sora2_parachain.Common.Result.{Result, ok, err, is_ok}
use sora2_parachain.Common.Storage.{get, insert, contains_key, unwrap_or}
use sora2_parachain.Common.Effects.{Effect, ◌>>=◌, ◌>>◌, pure, raise, gets, modify, require}
use sora2_parachain.Common.FrameSystem.{FrameSystem}
use sora2_parachain.Permissions.Defs.{
  Scope, unlimited, scope_eq, eq_scope, Mode, permit, forbid, Event, permission_granted,
  permission_transfered, permission_created, State, contains, position, is_empty, binary_search,
  insert_permission, has_no_entries,
}

abbrev fail : {E : Type 0} → PermissionsError → Result DispatchError E
fail e = err (DispatchError.permissions e)

abbrev pub verdict : Mode → Bool → Result DispatchError (Unit {0})
verdict permit true = ok tt
verdict permit false = fail PermissionsError.forbidden
verdict forbid true = fail PermissionsError.forbidden
verdict forbid false = ok tt

module _ {S : Type 0} where
  -- `Modes::<T>::get`, with `DefaultForModes`.
  abbrev pub mode_of : State S → ℕ → Mode
  mode_of s id = unwrap_or (get s.modes id) permit

  abbrev pub owners_of : State S → ℕ → Scope → List ℕ
  owners_of s id sc = unwrap_or (get s.owners (id, sc)) []

  abbrev pub permissions_of : State S → ℕ → Scope → List ℕ
  permissions_of s who sc = unwrap_or (get s.permissions (who, sc)) []

  unfoldable pub account_has_permission : State S → ℕ → Scope → ℕ → Bool
  account_has_permission s who sc id = is_ok (binary_search (permissions_of s who sc) id)

  unfoldable pub check_permission_with_scope :
      ℕ → ℕ → Scope → State S → Result DispatchError (Unit {0})
  unfolding account_has_permission
  check_permission_with_scope who id sc s =
      if contains_key s.modes id
      then verdict (mode_of s id) (
          if not (account_has_permission s who sc id) && not (scope_eq sc unlimited)
          then account_has_permission s who unlimited id
          else account_has_permission s who sc id)
      else fail PermissionsError.permission_not_found

  unfoldable pub check_permission : ℕ → ℕ → State S → Result DispatchError (Unit {0})
  unfolding check_permission_with_scope
  check_permission who id = check_permission_with_scope who id unlimited

  -- `(permission_found, owns_permission)` of `grant_permission_with_scope`.
  abbrev pub found_and_owned : State S → ℕ → ℕ → Scope → Bool × Bool
  found_and_owned s who id sc =
      if contains (owners_of s id sc) who
      then (true, true)
      else if not (scope_eq sc unlimited)
      then (not (is_empty (owners_of s id unlimited)), contains (owners_of s id unlimited) who)
      else (not (is_empty (owners_of s id sc)), false)

  abbrev pub set_owners : ℕ → Scope → List ℕ → State S → State S
  set_owners id sc os s = record s { owners = insert s.owners (id, sc) os }

  abbrev pub set_permissions : ℕ → Scope → List ℕ → State S → State S
  set_permissions who sc ps s = record s { permissions = insert s.permissions (who, sc) ps }

  -- `Permissions::<T>::mutate` with the insertion by binary search.
  abbrev pub hold : ℕ → Scope → ℕ → State S → State S
  hold who sc id s = set_permissions who sc (insert_permission (permissions_of s who sc) id).0 s

  abbrev pub deposit_event : Event → Effect (State S) (Unit {0})
  deposit_event e = modify λ s. record s { events = s.events ++ (e ∷ []) }

  module _ (frame : FrameSystem S) where
    open frame use {inc_consumers, dec_consumers}

    abbrev counted : State S → Option S → Result DispatchError (Unit {0}) × State S
    counted s none = (fail PermissionsError.inc_ref_error, s)
    counted s (some y) = (ok tt, record s { system = y })

    abbrev pub inc_ref : ℕ → Effect (State S) (Unit {0})
    inc_ref who s = counted s (inc_consumers who s.system)

    -- A holder of the first permission is counted as a consumer.
    abbrev pub inc_ref_if_new : ℕ → Effect (State S) (Unit {0})
    inc_ref_if_new who s = if has_no_entries s.permissions who then inc_ref who s else (ok tt, s)

    unfoldable pub grant_permission_with_scope : ℕ → ℕ → ℕ → Scope → Effect (State S) (Unit {0})
    grant_permission_with_scope who account id sc = do
      (found, owns) ← gets λ s. found_and_owned s who id sc
      require (owns || found) (DispatchError.permissions PermissionsError.permission_not_found)
      require owns (DispatchError.permissions PermissionsError.permission_not_owned)
      inc_ref_if_new account
      modify (hold account sc id)
      deposit_event (permission_granted id account)

    unfoldable pub grant_permission : ℕ → ℕ → ℕ → Effect (State S) (Unit {0})
    unfolding grant_permission_with_scope
    grant_permission who account id = grant_permission_with_scope who account id unlimited

    -- The closure of `Owners::<T>::mutate`. The vector is written back on every path.
    abbrev pub replace_owner : ℕ → ℕ → ℕ → Scope → List ℕ → Option ℕ → Effect (State S) (Unit {0})
    replace_owner who account id sc os (some pos) = do
      modify (set_owners id sc (set os pos account))
      modify λ s. record s { system = dec_consumers who s.system }
      inc_ref account
    replace_owner who account id sc os none = do
      modify (set_owners id sc os)
      require (not (is_empty os)) (DispatchError.permissions PermissionsError.permission_not_found)
      raise (DispatchError.permissions PermissionsError.permission_not_owned)

    unfoldable pub transfer_permission : ℕ → ℕ → ℕ → Scope → Effect (State S) (Unit {0})
    transfer_permission who account id sc = do
      known ← gets λ s. contains_key s.modes id
      require known (DispatchError.permissions PermissionsError.permission_not_found)
      os ← gets λ s. owners_of s id sc
      replace_owner who account id sc os (position os who)
      deposit_event (permission_transfered id account)

    unfoldable pub create_permission : ℕ → ℕ → ℕ → Scope → Mode → Effect (State S) (Unit {0})
    create_permission owner account id sc mode = do
      known ← gets λ s. contains_key s.modes id
      require (not known) (DispatchError.permissions PermissionsError.permission_already_exists)
      inc_ref_if_new account
      inc_ref owner
      modify λ s. record s { modes = insert s.modes id mode }
      modify λ s. set_owners id sc (owners_of s id sc ++ (owner ∷ [])) s
      modify (hold account sc id)
      deposit_event (permission_created id account)

    -- Whether the owner was added, and the owners with it.
    abbrev pub add_owner : List ℕ → ℕ → List ℕ × Bool
    add_owner os owner = if contains os owner then (os, false) else (os ++ (owner ∷ []), true)

    abbrev pub hold_if_permitted : Mode → ℕ → Scope → ℕ → Effect (State S) Bool
    hold_if_permitted permit holder sc id = do
      inc_ref_if_new holder
      (ps, granted) ← gets λ s. insert_permission (permissions_of s holder sc) id
      modify (set_permissions holder sc ps)
      pure granted
    hold_if_permitted forbid holder sc id = pure false

    unfoldable pub assign_permission : ℕ → ℕ → ℕ → Scope → Effect (State S) (Unit {0})
    assign_permission owner holder id sc = do
      known ← gets λ s. contains_key s.modes id
      require known (DispatchError.permissions PermissionsError.permission_not_found)
      inc_ref owner
      (os, made_owner) ← gets λ s. add_owner (owners_of s id sc) owner
      modify (set_owners id sc os)
      mode ← gets λ s. mode_of s id
      granted ← hold_if_permitted mode holder sc id
      require (made_owner || granted)
          (DispatchError.permissions PermissionsError.permission_already_exists)
