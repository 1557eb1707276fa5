-- ===== src/Common/Storage.antt =====
-- Storage maps of a pallet (`StorageMap`, `StorageDoubleMap`) as association lists. A double map
-- is keyed by the pair of its keys. Iteration order is not observed by the modelled code.
use sora2_parachain.Prelude.{
  ◌≡◌, refl, ◌≢◌, Bool, true, false, Option, none, some, List, [], ◌∷◌, arith, Eq, if◌then◌else◌,
}

abbrev pub StorageMap : Type 0 → Type 0 → Type 0
StorageMap K V = List (K × V)

abbrev pub is_some {ℓ} : {A : Type ℓ} → Option A → Bool
is_some none = false
is_some (some a) = true

-- The value of a `ValueQuery` map, with its default.
abbrev pub unwrap_or {ℓ} : {A : Type ℓ} → Option A → A → A
unwrap_or none d = d
unwrap_or (some a) d = a

module _ {K V : Type 0} ⦃e : Eq K⦄ where
  abbrev pub get : StorageMap K V → K → Option V
  get [] k = none
  get ((j, v) ∷ m) k = if e.same j k then some v else get m k

  abbrev pub contains_key : StorageMap K V → K → Bool
  contains_key m k = is_some (get m k)

  abbrev pub insert : StorageMap K V → K → V → StorageMap K V
  insert [] k v = (k, v) ∷ []
  insert ((j, w) ∷ m) k v = if e.same j k then (k, v) ∷ m else (j, w) ∷ insert m k v

  pub get-insert :
      (m : StorageMap K V) (k j : K) (v : V)
      → get (insert m k v) j ≡ (if e.same k j then some v else get m j)
  get-insert [] k j v = refl
  get-insert ((i, w) ∷ m) k j v =
      ground (arith, e.same_iff k j, e.same_iff i k, e.same_iff i j, get-insert m k j v)

  pub get-insert_self : (m : StorageMap K V) (k : K) (v : V) → get (insert m k v) k ≡ some v
  get-insert_self m k v = ground (arith, get-insert m k k v, e.same_iff k k)

  pub get-insert_ne :
      (m : StorageMap K V) (k j : K) (v : V) → k ≢ j → get (insert m k v) j ≡ get m j
  get-insert_ne m k j v h = ground (arith, get-insert m k j v, e.same_iff k j)
