-- ===== src/Permissions/Genesis.antt =====
-- pallets/permissions/src/lib.rs: `GenesisConfig::build`. `none` is the panic of `unwrap` where
-- `inc_consumers` fails.
use sora2_parachain.Prelude.{
  ℕ, ltb, Option, none, some, List, [], ◌∷◌, if◌then◌else◌, eq_ℕ, eq_pair,
}
use sora2_parachain.Common.Storage.{insert}
use sora2_parachain.Common.FrameSystem.{FrameSystem}
use sora2_parachain.Permissions.Defs.{
  Scope, eq_scope, Mode, permit, forbid, State, transfer_id, mint_id, burn_id, slash_id,
  init_dex_id, manage_dex_id,
}

-- `slice::sort` of the standard library.
unfoldable pub sorted_insert : ℕ → List ℕ → List ℕ
sorted_insert x [] = x ∷ []
sorted_insert x (y ∷ ys) = if ltb y x then y ∷ sorted_insert x ys else x ∷ y ∷ ys

unfoldable pub sort : List ℕ → List ℕ
unfolding sorted_insert
sort [] = []
sort (x ∷ xs) = sorted_insert x (sort xs)

-- The ids 7 to 13 are those of the farm permissions.
abbrev pub initial_modes : List (ℕ × Mode)
initial_modes =
    (transfer_id, forbid)
    ∷ (mint_id, permit)
    ∷ (burn_id, permit)
    ∷ (slash_id, permit)
    ∷ (init_dex_id, permit)
    ∷ (manage_dex_id, permit)
    ∷ (7, permit)
    ∷ (8, permit)
    ∷ (9, permit)
    ∷ (13, permit)
    ∷ (10, permit)
    ∷ (11, permit)
    ∷ (12, permit)
    ∷ []

module _ {S : Type 0} where
  unfoldable pub insert_modes : List (ℕ × Mode) → State S → State S
  insert_modes [] s = s
  insert_modes ((id, mode) ∷ ms) s = insert_modes ms (record s { modes = insert s.modes id mode })

  module _ (frame : FrameSystem S) where
    open frame use {inc_consumers}

    unfoldable pub inc_all : List ℕ → S → Option S
    inc_all [] y = some y
    inc_all (a ∷ rest) y = elim (inc_consumers a y) [ none ↦ none | some y' ↦ inc_all rest y' ]

    unfoldable pub build_owners : List (ℕ × Scope × List ℕ) → State S → Option (State S)
    unfolding inc_all
    build_owners [] s = some s
    build_owners ((id, sc, os) ∷ r) s = elim (inc_all os s.system) [
      | none ↦ none
      | some y ↦ build_owners r (record s { owners = insert s.owners (id, sc) os; system = y })
    ]

    unfoldable pub build_permissions : List (ℕ × Scope × List ℕ) → State S → Option (State S)
    unfolding sort
    build_permissions [] s = some s
    build_permissions ((who, sc, ps) ∷ r) s = elim (inc_consumers who s.system) [
      | none ↦ none
      | some y ↦
          build_permissions r
            (record s { permissions = insert s.permissions (who, sc) (sort ps); system = y })
    ]

    -- From an empty storage, over the system as it stands.
    unfoldable pub genesis_build :
        List (ℕ × Scope × List ℕ) → List (ℕ × Scope × List ℕ) → S → Option (State S)
    unfolding build_owners build_permissions insert_modes
    genesis_build initial_owners initial_permissions y =
        elim (build_owners initial_owners
          (record { owners = []; modes = []; permissions = []; system = y; events = [] })) [
            | none ↦ none
            | some s ↦ build_permissions initial_permissions (insert_modes initial_modes s)
          ]
