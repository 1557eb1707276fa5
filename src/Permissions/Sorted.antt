-- ===== src/Permissions/Sorted.antt =====
-- The sorted vectors of pallets/permissions/src/lib.rs: what the binary search and the insertion
-- at the index that it returns mean on them.
use sora2_parachain.Prelude.{
  ℕ, suc, ◌≡◌, refl, ◌≤◌, false, not, ◌||◌, List, [], ◌∷◌, arith, ltb, nat_eq, if◌then◌else◌, All,
  inl, inr,
}
use sora2_parachain.Common.Result.{Result, ok, err, is_ok, Result-cases}
use sora2_parachain.Permissions.Defs.{contains, binary_search, later, insert_permission}

abbrev pub IsSorted : List ℕ → Type 0
IsSorted [] = Unit
IsSorted (x ∷ xs) = All (λ y. x ≤ y) xs × IsSorted xs

-- What lies below every element is not in the vector.
contains-below : (x y : ℕ) (ys : List ℕ) → suc x ≤ y → All (λ z. y ≤ z) ys → contains ys x ≡ false
unfolding contains
contains-below x y [] h a = refl
contains-below x y (z ∷ ys) h a = ground (arith, contains-below x y ys h a.1)

is_ok-later : (r : Result ℕ ℕ) → is_ok (later r) ≡ is_ok r
is_ok-later (ok i) = refl
is_ok-later (err i) = refl

-- On a sorted vector the binary search finds exactly the elements.
pub is_ok-binary_search :
    (ps : List ℕ) (id : ℕ) → IsSorted ps → is_ok (binary_search ps id) ≡ contains ps id
unfolding binary_search contains
is_ok-binary_search [] id h = refl
is_ok-binary_search (y ∷ ys) id h = ground (
  arith,
  is_ok-later (binary_search ys id),
  is_ok-binary_search ys id h.1,
  contains-below id y ys,
)

-- The insertion, followed along the vector.
insert_permission-cons :
    (y : ℕ) (ys : List ℕ) (id : ℕ)
    → (insert_permission (y ∷ ys) id).0 ≡ (
        if nat_eq y id
        then y ∷ ys
        else if ltb id y
        then id ∷ y ∷ ys
        else y ∷ (insert_permission ys id).0)
unfolding insert_permission
insert_permission-cons y ys id = elim (Result-cases (binary_search ys id)) [
  | inl (i, e) ↦ ground arith
  | inr (i, e) ↦ ground arith
]

All-weaken : (x y : ℕ) (zs : List ℕ) → x ≤ y → All (λ z. y ≤ z) zs → All (λ z. x ≤ z) zs
All-weaken x y [] h a = tt
All-weaken x y (z ∷ zs) h a = (omega arith, All-weaken x y zs h a.1)

All-insert_permission :
    (x id : ℕ) (ps : List ℕ)
    → x ≤ id
    → All (λ z. x ≤ z) ps
    → All (λ z. x ≤ z) (insert_permission ps id).0
unfolding insert_permission
All-insert_permission x id [] h a = (h, tt)
All-insert_permission x id (p ∷ ps) h a =
    ground (arith, insert_permission-cons p ps id, All-insert_permission x id ps h a.1)

-- Inserting at the index that the search returns keeps the vector sorted.
pub insert_permission-IsSorted :
    (ps : List ℕ) (id : ℕ) → IsSorted ps → IsSorted (insert_permission ps id).0
unfolding insert_permission
insert_permission-IsSorted [] id h = (tt, tt)
insert_permission-IsSorted (p ∷ ps) id h = ground (
  arith,
  insert_permission-cons p ps id,
  All-weaken id p ps,
  All-insert_permission p id ps,
  insert_permission-IsSorted ps id h.1,
)

-- The insertion adds the value, and no other.
pub contains-insert_permission :
    (ps : List ℕ) (id j : ℕ)
    → contains (insert_permission ps id).0 j ≡ (nat_eq id j || contains ps j)
unfolding insert_permission contains
contains-insert_permission [] id j = ground arith
contains-insert_permission (p ∷ ps) id j =
    ground (arith, insert_permission-cons p ps id, contains-insert_permission ps id j)

-- It reports an insertion exactly when the value was not there.
pub insert_permission-reports :
    (ps : List ℕ) (id : ℕ) → IsSorted ps → (insert_permission ps id).1 ≡ not (contains ps id)
unfolding insert_permission
insert_permission-reports ps id h = elim (Result-cases (binary_search ps id)) [
  | inl (i, e) ↦ ground (arith, is_ok-binary_search ps id h)
  | inr (i, e) ↦ ground (arith, is_ok-binary_search ps id h)
]
