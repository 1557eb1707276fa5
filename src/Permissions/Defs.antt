-- ===== src/Permissions/Defs.antt =====
-- pallets/permissions/src/lib.rs: the storage of the pallet and its vectors.
use sora2_parachain.Prelude.{
  ℕ, suc, ◌≡◌, ◌↔◌, Bool, true, false, Option, none, some, List, [], ◌∷◌, arith, Eq, ltb, nat_eq,
  nat_eq_iff, if◌then◌else◌, insert_at,
}
use sora2_parachain.Common.Result.{Result, ok, err}
use sora2_parachain.Common.Storage.{StorageMap}

-- `Limited` carries a hash (`H512`), which is only compared.
pub data Scope : Type 0 where
  limited : ℕ → Scope
  unlimited : Scope

pub data Mode : Type 0 where
  permit forbid : Mode

abbrev pub scope_eq : Scope → Scope → Bool
scope_eq (limited a) (limited b) = nat_eq a b
scope_eq (limited a) unlimited = false
scope_eq unlimited (limited b) = false
scope_eq unlimited unlimited = true

pub scope_eq_iff : (a b : Scope) → (scope_eq a b ≡ true) ↔ (a ≡ b)
scope_eq_iff (limited a) (limited b) = ground (arith, nat_eq_iff a b)
scope_eq_iff (limited a) unlimited = ground arith
scope_eq_iff unlimited (limited b) = ground arith
scope_eq_iff unlimited unlimited = ground arith

instance abbrev pub eq_scope : Eq Scope
eq_scope = record { same = scope_eq; same_iff = scope_eq_iff }

pub data Event : Type 0 where
  permission_granted permission_transfered permission_created : ℕ → ℕ → Event

-- The storage of the pallet, with that of `frame_system` and the events deposited so far.
pub record State (S : Type 0) : Type 0 where
  pub owners : StorageMap (ℕ × Scope) (List ℕ)
  pub modes : StorageMap ℕ Mode
  pub permissions : StorageMap (ℕ × Scope) (List ℕ)
  pub system : S
  pub events : List Event

abbrev pub transfer_id : ℕ
transfer_id = 1

abbrev pub mint_id : ℕ
mint_id = 2

abbrev pub burn_id : ℕ
burn_id = 3

abbrev pub slash_id : ℕ
slash_id = 4

abbrev pub init_dex_id : ℕ
init_dex_id = 5

abbrev pub manage_dex_id : ℕ
manage_dex_id = 6

-- `Vec::contains`
unfoldable pub contains : List ℕ → ℕ → Bool
contains [] a = false
contains (x ∷ xs) a = if nat_eq x a then true else contains xs a

abbrev pub next_index : Option ℕ → Option ℕ
next_index none = none
next_index (some i) = some (suc i)

-- `iter().position(|o| o == &who)`
unfoldable pub position : List ℕ → ℕ → Option ℕ
position [] a = none
position (x ∷ xs) a = if nat_eq x a then some 0 else next_index (position xs a)

abbrev pub is_empty {ℓ} : {A : Type ℓ} → List A → Bool
is_empty [] = true
is_empty (x ∷ xs) = false

abbrev pub later : Result ℕ ℕ → Result ℕ ℕ
later (ok i) = ok (suc i)
later (err i) = err (suc i)

-- `slice::binary_search` of the standard library on a sorted slice: the index of the value, or as
-- an error the index at which the value can be inserted with the slice still sorted.
unfoldable pub binary_search : List ℕ → ℕ → Result ℕ ℕ
binary_search [] x = err 0
binary_search (y ∷ ys) x =
    let rest = binary_search ys x in
    if nat_eq y x then ok 0 else if ltb x y then err 0 else later rest

-- `if let Err(index) = permissions.binary_search(&id) { permissions.insert(index, id) }`, with
-- whether it inserted.
abbrev pub insert_found : List ℕ → ℕ → Result ℕ ℕ → List ℕ × Bool
insert_found ps id (ok index) = (ps, false)
insert_found ps id (err index) = (insert_at ps index id, true)

unfoldable pub insert_permission : List ℕ → ℕ → List ℕ × Bool
unfolding binary_search
insert_permission ps id = insert_found ps id (binary_search ps id)

-- `Permissions::<T>::iter_prefix_values(&account).count() == 0`
unfoldable pub has_no_entries : {V : Type 0} → StorageMap (ℕ × Scope) V → ℕ → Bool
has_no_entries [] a = true
has_no_entries (((b, sc), v) ∷ m) a = if nat_eq b a then false else has_no_entries m a
