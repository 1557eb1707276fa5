-- ===== src/Assets/Registration.antt =====
-- pallets/assets/src/lib.rs: what the registration of an asset requires and leaves behind.
use sora2_parachain.Prelude.{
  ℕ, ◌≤◌, ◌≡◌, refl, Bool, true, none, some, List, [], ◌∷◌, arith, eq_ℕ, Option-cases, ◌⊎◌, inl,
  inr,
}
use sora2_parachain.Common.Errors.{DispatchError}
use sora2_parachain.Common.Result.{ok, err, Result-cases}
use sora2_parachain.Common.Storage.{get, insert, get-insert_self}
use sora2_parachain.Common.Effects.{with_transaction}
use sora2_parachain.Permissions.Defs.{Scope, limited}
use sora2_parachain.Permissions.Operations.{assign_permission}
use sora2_parachain.Assets.Defs.{
  AssetInfo, State, Env, is_symbol_valid, is_name_valid, owner_permissions,
}
use sora2_parachain.Assets.Operations.{
  asset_owner, assign_all, endow, register_asset_id, register_from, gen_asset_id,
}

module _ {S L : Type 0} (env : Env S L) where
  open env use {frame, hash}

  assign_all-keeps :
      (ids : List ℕ) (account : ℕ) (sc : Scope) (s : State S L)
      → let t = (assign_all env ids account sc s).1 in
        (t.asset_infos ≡ s.asset_infos) × (t.asset_owners ≡ s.asset_owners)
  unfolding assign_all
  assign_all-keeps [] account sc s = (refl, refl)
  assign_all-keeps (id ∷ ids) account sc s =
      let (r, p) = assign_permission frame account account id sc (s.permissions) in
      ground (arith, assign_all-keeps ids account sc (record s { permissions = p }))

  abbrev Keeps : State S L → State S L → Type 0
  Keeps s t = (t.asset_infos ≡ s.asset_infos) × (t.asset_owners ≡ s.asset_owners)

  pub endow-Keeps :
      (account asset supply : ℕ) (s : State S L) → Keeps s (endow env account asset supply s).1
  unfolding endow
  endow-Keeps account asset supply s =
      ground (arith, assign_all-keeps owner_permissions account (limited (hash asset)) s)

  -- A registration that succeeds was of a new asset with a valid symbol, name and precision, and
  -- records the account as the owner, and the metadata as given.
  register_asset_id_lem :
      (account asset : ℕ) (symbol name : List ℕ) (precision supply : ℕ) (mintable : Bool)
      (s : State S L)
      → (register_asset_id env account asset symbol name precision supply mintable s).0 ≡ ok tt
      → let t = (register_asset_id env account asset symbol name precision supply mintable s).1 in
        (asset_owner env asset s ≡ none)
        × (is_symbol_valid symbol ≡ true)
        × (is_name_valid name ≡ true)
        × (precision ≤ 18)
        × (get t.asset_owners asset ≡ some account)
        × (get t.asset_infos asset
            ≡ some (record {
              symbol = symbol;
              name = name;
              precision = precision;
              is_mintable = mintable;
            }))
  unfolding register_asset_id
  register_asset_id_lem account asset symbol name precision supply mintable s h =
      let info : AssetInfo = record {
        symbol = symbol;
        name = name;
        precision = precision;
        is_mintable = mintable;
      } in
      elim (Option-cases (frame.inc_consumers account (s.permissions.system))) [
        | inl e ↦ absurd (ground arith)
        | inr (y, e) ↦ ground (
          arith,
          endow-Keeps account asset supply (record s {
            permissions = record (s.permissions) { system = y };
            asset_owners = insert s.asset_owners asset account;
            asset_infos = insert s.asset_infos asset info;
          }),
          get-insert_self s.asset_owners asset account,
          get-insert_self s.asset_infos asset info,
        )
      ]

  -- A call of `register_from` either fails and changes nothing, or returns the generated id of an
  -- asset that had no owner; then the symbol, the name and the precision are valid, and the owner
  -- and the metadata are stored as given.
  pub register_from_lem :
      (account : ℕ) (symbol name : List ℕ) (precision supply : ℕ) (mintable : Bool) (s : State S L)
      → let (r, t) = register_from env account symbol name precision supply mintable s in
        let asset = gen_asset_id env account s in
        ((e : DispatchError) × (r ≡ err e)) × (t ≡ s)
        ⊎ (r ≡ ok asset)
          × (asset_owner env asset s ≡ none)
          × (is_symbol_valid symbol ≡ true)
          × (is_name_valid name ≡ true)
          × (precision ≤ 18)
          × (get t.asset_owners asset ≡ some account)
          × (get t.asset_infos asset
              ≡ some (record {
                symbol = symbol;
                name = name;
                precision = precision;
                is_mintable = mintable;
              }))
  unfolding register_from with_transaction
  register_from_lem account symbol name precision supply mintable s =
      let asset = gen_asset_id env account s in
      let run = register_asset_id env account asset symbol name precision supply mintable s in
      elim (Result-cases (run.0)) [
        | inl (u, e) ↦ inr (
            ground (
              arith,
              register_asset_id_lem account asset symbol name precision supply mintable s e,
            ))
        | inr (x, e) ↦ inl ((x, ground arith), ground arith)
      ]
