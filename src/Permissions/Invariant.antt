-- ===== src/Permissions/Invariant.antt =====
-- pallets/permissions/src/lib.rs: in every state that the pallet reaches from a genesis, each
-- vector of permissions is sorted, so that the binary search reads it right.
use sora2_parachain.Prelude.{
  ℕ, ◌≡◌, refl, ◌∙◌, ◌⊎◌, inl, inr, some, List, [], ◌∷◌, arith, eq_ℕ, eq_pair, All, Bool-cases,
  Option-cases, ◌≤◌,
}
use mathlib.Core.Path.{subst}
use mathlib.Core.Option.{some-injective}
use sora2_parachain.Common.Storage.{insert, get-insert}
use sora2_parachain.Common.FrameSystem.{FrameSystem}
use sora2_parachain.Permissions.Defs.{Scope, eq_scope, Mode, State, insert_permission}
use sora2_parachain.Permissions.Operations.{
  permissions_of, hold, set_permissions, grant_permission_with_scope, transfer_permission,
  create_permission, assign_permission,
}
use sora2_parachain.Permissions.Genesis.{
  sorted_insert, sort, insert_modes, build_owners, build_permissions, genesis_build, initial_modes,
  inc_all,
}
use sora2_parachain.Permissions.Sorted.{IsSorted, insert_permission-IsSorted}

All-sorted_insert :
    (x y : ℕ) (zs : List ℕ) → x ≤ y → All (λ z. x ≤ z) zs → All (λ z. x ≤ z) (sorted_insert y zs)
unfolding sorted_insert
All-sorted_insert x y [] h a = (h, tt)
All-sorted_insert x y (z ∷ zs) h a = ground (arith, All-sorted_insert x y zs h a.1)

All-weaken : (x y : ℕ) (zs : List ℕ) → x ≤ y → All (λ z. y ≤ z) zs → All (λ z. x ≤ z) zs
All-weaken x y [] h a = tt
All-weaken x y (z ∷ zs) h a = (omega arith, All-weaken x y zs h a.1)

sorted_insert-IsSorted : (x : ℕ) (ys : List ℕ) → IsSorted ys → IsSorted (sorted_insert x ys)
unfolding sorted_insert
sorted_insert-IsSorted x [] h = (tt, tt)
sorted_insert-IsSorted x (y ∷ ys) h =
    ground (arith, sorted_insert-IsSorted x ys h.1, All-sorted_insert y x ys, All-weaken x y ys)

sort-IsSorted : (xs : List ℕ) → IsSorted (sort xs)
unfolding sort
sort-IsSorted [] = tt
sort-IsSorted (x ∷ xs) = sorted_insert-IsSorted x (sort xs) (sort-IsSorted xs)

module _ {S : Type 0} where
  abbrev pub IsValid : State S → Type 0
  IsValid s = (who : ℕ) (sc : Scope) → IsSorted (permissions_of s who sc)

  set_permissions-IsValid :
      (who : ℕ) (sc : Scope) (ps : List ℕ) (s : State S)
      → IsSorted ps
      → IsValid s
      → IsValid (set_permissions who sc ps s)
  set_permissions-IsValid who sc ps s h v w c =
      rw (get-insert s.permissions (who, sc) (w, c) ps)
        (elim (Bool-cases (eq_pair.same (who, sc) (w, c))) [
          | inl e ↦ rw e h
          | inr e ↦ rw e (v w c)
        ])

  hold-IsValid :
      (who : ℕ) (sc : Scope) (id : ℕ) (s : State S) → IsValid s → IsValid (hold who sc id s)
  hold-IsValid who sc id s v =
      set_permissions-IsValid who sc (insert_permission (permissions_of s who sc) id).0 s
        (insert_permission-IsSorted (permissions_of s who sc) id (v who sc)) v

  -- An operation leaves the permissions alone, or one holder gets one.
  abbrev HoldsMore : ℕ → Scope → ℕ → State S → State S → Type 0
  HoldsMore who sc id s t =
      (t.permissions ≡ s.permissions) ⊎ (t.permissions ≡ (hold who sc id s).permissions)

  HoldsMore-IsValid :
      (who : ℕ) (sc : Scope) (id : ℕ) (s t : State S)
      → HoldsMore who sc id s t
      → IsValid s
      → IsValid t
  HoldsMore-IsValid who sc id s t (inl e) v w c = rw e (v w c)
  HoldsMore-IsValid who sc id s t (inr e) v w c = rw e (hold-IsValid who sc id s v w c)

  module _ (frame : FrameSystem S) where
    grant-HoldsMore :
        (who account id : ℕ) (sc : Scope) (s : State S)
        → HoldsMore account sc id s (grant_permission_with_scope frame who account id sc s).1
    unfolding grant_permission_with_scope
    grant-HoldsMore who account id sc s = ground arith

    transfer-same :
        (who account id : ℕ) (sc : Scope) (s : State S)
        → (transfer_permission frame who account id sc s).1.permissions ≡ s.permissions
    unfolding transfer_permission
    transfer-same who account id sc s = ground arith

    create-HoldsMore :
        (owner account id : ℕ) (sc : Scope) (mode : Mode) (s : State S)
        → HoldsMore account sc id s (create_permission frame owner account id sc mode s).1
    unfolding create_permission
    create-HoldsMore owner account id sc mode s = ground arith

    assign-HoldsMore :
        (owner holder id : ℕ) (sc : Scope) (s : State S)
        → HoldsMore holder sc id s (assign_permission frame owner holder id sc s).1
    unfolding assign_permission
    assign-HoldsMore owner holder id sc s = ground arith

    pub assign-IsValid :
        (owner holder id : ℕ) (sc : Scope) (s : State S)
        → IsValid s
        → IsValid (assign_permission frame owner holder id sc s).1
    assign-IsValid owner holder id sc s v =
        HoldsMore-IsValid holder sc id s (assign_permission frame owner holder id sc s).1
          (assign-HoldsMore owner holder id sc s) v

    -- A call of the pallet by another, or a step of `frame_system` in between.
    pub data Step (s : State S) : State S → Type 0 where
      grant :
          (who account id : ℕ) (sc : Scope)
          → Step s (grant_permission_with_scope frame who account id sc s).1
      transfer :
          (who account id : ℕ) (sc : Scope)
          → Step s (transfer_permission frame who account id sc s).1
      create :
          (owner account id : ℕ) (sc : Scope) (mode : Mode)
          → Step s (create_permission frame owner account id sc mode s).1
      assign :
          (owner holder id : ℕ) (sc : Scope)
          → Step s (assign_permission frame owner holder id sc s).1
      outside : (y : S) → Step s (record s { system = y })

    pub data Reach (s : State S) : State S → Type 0 where
      here : Reach s s
      next : {t u : State S} → Reach s t → Step t u → Reach s u

    Step-IsValid : {s t : State S} → Step s t → IsValid s → IsValid t
    Step-IsValid {s} (grant who account id sc) v =
        HoldsMore-IsValid account sc id s (grant_permission_with_scope frame who account id sc s).1
          (grant-HoldsMore who account id sc s) v
    Step-IsValid {s} (transfer who account id sc) v =
        λ w c. rw (transfer-same who account id sc s) (v w c)
    Step-IsValid {s} (create owner account id sc mode) v =
        HoldsMore-IsValid account sc id s (create_permission frame owner account id sc mode s).1
          (create-HoldsMore owner account id sc mode s) v
    Step-IsValid {s} (assign owner holder id sc) v = assign-IsValid owner holder id sc s v
    Step-IsValid {s} (outside y) v = v

    Reach-IsValid : {s t : State S} → IsValid s → Reach s t → IsValid t
    Reach-IsValid v here = v
    Reach-IsValid v (next r st) = Step-IsValid st (Reach-IsValid v r)

    insert_modes-permissions :
        (ms : List (ℕ × Mode)) (s : State S) → (insert_modes ms s).permissions ≡ s.permissions
    unfolding insert_modes
    insert_modes-permissions [] s = refl
    insert_modes-permissions ((id, mode) ∷ ms) s =
        insert_modes-permissions ms (record s { modes = insert s.modes id mode })

    build_owners-permissions :
        (os : List (ℕ × Scope × List ℕ)) (s : State S) {t : State S}
        → build_owners frame os s ≡ some t
        → t.permissions ≡ s.permissions
    unfolding build_owners
    build_owners-permissions [] s h = ground arith
    build_owners-permissions ((id, sc, o) ∷ r) s h =
        elim (Option-cases (inc_all frame o s.system)) [
          | inl e ↦ absurd (ground arith)
          | inr (y, e) ↦
              build_owners-permissions r
                (record s { owners = insert s.owners (id, sc) o; system = y })
                (rw (e, build_owners) at h)
        ]

    build_permissions-IsValid :
        (ps : List (ℕ × Scope × List ℕ)) (s : State S) {t : State S}
        → IsValid s
        → build_permissions frame ps s ≡ some t
        → IsValid t
    unfolding build_permissions
    build_permissions-IsValid [] s v h = subst IsValid (some-injective _ _ h) v
    build_permissions-IsValid ((who, sc, p) ∷ r) s v h =
        elim (Option-cases (frame.inc_consumers who s.system)) [
          | inl e ↦ absurd (ground arith)
          | inr (y, e) ↦
              build_permissions-IsValid r
                (record (set_permissions who sc (sort p) s) { system = y })
                (set_permissions-IsValid who sc (sort p) s (sort-IsSorted p) v)
                (rw (e, build_permissions) at h)
        ]

    -- In every state that is reached from a genesis that does not panic, every holder's vector of
    -- permissions is sorted in every scope, whatever calls failed on the way.
    pub genesis-IsValid :
        (initial_owners initial_permissions : List (ℕ × Scope × List ℕ)) (y : S) {s t : State S}
        → genesis_build frame initial_owners initial_permissions y ≡ some s
        → Reach s t
        → IsValid t
    unfolding genesis_build
    genesis-IsValid os ps y h r =
        let start : State S = record {
          owners = [];
          modes = [];
          permissions = [];
          system = y;
          events = [];
        } in
        elim (Option-cases (build_owners frame os start)) [
          | inl e ↦ absurd (ground arith)
          | inr (o, e) ↦
              let kept : (insert_modes initial_modes o).permissions ≡ [] =
                insert_modes-permissions initial_modes o ∙ build_owners-permissions os start e in
              Reach-IsValid
                (build_permissions-IsValid ps (insert_modes initial_modes o) (λ w c. rw kept tt)
                  (rw (e, genesis_build) at h))
                r
        ]
