-- ===== src/Assets/Operations.antt =====
-- pallets/assets/src/lib.rs: the functions and the extrinsics of the pallet. `ensure_signed` is the
-- match on the origin: `none` is an origin that is not signed.
use sora2_parachain.Prelude.{
  ℕ, eq_ℕ, Bool, true, false, not, Option, none, some, List, [], ◌∷◌, ◌++◌, leb, nat_eq,
  if◌then◌else◌,
}
use sora2_parachain.Common.Errors.{DispatchError, AssetsError}
use sora2_parachain.Common.Result.{Result, ok, err, or_else}
use sora2_parachain.Common.Storage.{get, insert, unwrap_or, is_some}
use sora2_parachain.Common.Effects.{
  Effect, ◌>>=◌, ◌>>◌, pure, raise, gets, modify, require, with_transaction, on_part,
}
use sora2_parachain.Permissions.Defs.{Scope, limited, unlimited, mint_id, transfer_id, burn_id}
use sora2_parachain.Permissions
use sora2_parachain.Permissions.Operations.{check_permission_with_scope, assign_permission}
use sora2_parachain.Assets.Defs.{
  AssetInfo, AssetRecord, default_info, Event, asset_registered, State, Env, max_allowed_precision,
  is_symbol_valid, is_name_valid, owner_permissions,
}

abbrev pub failed : AssetsError → DispatchError
failed = DispatchError.assets

abbrev pub ensure_signed : {S : Type 0} → Option ℕ → Effect S ℕ
ensure_signed none = raise DispatchError.bad_origin
ensure_signed (some who) = pure who

module _ {S L : Type 0} (env : Env S L) where
  open env use {frame, money, hash, digest_id, record_id, default_account}

  -- A call on the storage of `permissions`, and one on that of the currencies.
  abbrev pub in_permissions :
      {A : Type 0} → Effect (Permissions.Defs.State S) A → Effect (State S L) A
  in_permissions = on_part (λ s. s.permissions) (λ s p. record s { permissions = p })

  abbrev pub in_currency : {A : Type 0} → Effect L A → Effect (State S L) A
  in_currency = on_part (λ s. s.currency) (λ s c. record s { currency = c })

  abbrev pub in_system : (S → S) → Effect (State S L) (Unit {0})
  in_system f =
      modify
        λ s. record s { permissions = record (s.permissions) { system = f (s.permissions.system) } }

  abbrev pub deposit_event : Event → Effect (State S L) (Unit {0})
  deposit_event e = modify λ s. record s { events = s.events ++ (e ∷ []) }

  -- `AssetOwners` is a `ValueQuery`: a missing owner is the default account.
  abbrev pub asset_owners : ℕ → State S L → ℕ
  asset_owners asset s = unwrap_or (get s.asset_owners asset) default_account

  unfoldable pub asset_owner : ℕ → State S L → Option ℕ
  asset_owner asset s =
      if nat_eq (asset_owners asset s) default_account then none else some (asset_owners asset s)

  unfoldable pub asset_exists : ℕ → State S L → Bool
  unfolding asset_owner
  asset_exists asset s = is_some (asset_owner asset s)

  abbrev pub existing : Bool → Result DispatchError (Unit {0})
  existing true = ok tt
  existing false = err (failed AssetsError.asset_id_not_exists)

  unfoldable pub ensure_asset_exists : ℕ → State S L → Result DispatchError (Unit {0})
  unfolding asset_exists
  ensure_asset_exists asset s = existing (asset_exists asset s)

  unfoldable pub register_asset_id_from_tuple : AssetRecord → Effect (State S L) ℕ
  register_asset_id_from_tuple tuple = do
    let asset = record_id tuple
    modify λ s. record s { asset_records = insert s.asset_records asset tuple }
    pure asset

  abbrev pub is_the_owner : ℕ → Option ℕ → Bool
  is_the_owner account none = false
  is_the_owner account (some x) = nat_eq x account

  unfoldable pub is_asset_owner : ℕ → ℕ → State S L → Bool
  unfolding asset_owner
  is_asset_owner asset account s = is_the_owner account (asset_owner asset s)

  unfoldable pub check_permission_maybe_with_parameters :
      ℕ → ℕ → ℕ → State S L → Result DispatchError (Unit {0})
  check_permission_maybe_with_parameters issuer id asset s =
      or_else (check_permission_with_scope issuer id (limited (hash asset)) s.permissions)
        (check_permission_with_scope issuer id unlimited s.permissions)

  abbrev pub info_of : ℕ → State S L → AssetInfo
  info_of asset s = unwrap_or (get s.asset_infos asset) default_info

  -- The loop over `permission_ids`.
  unfoldable pub assign_all : List ℕ → ℕ → Scope → Effect (State S L) (Unit {0})
  assign_all [] account sc = pure tt
  assign_all (id ∷ ids) account sc =
      in_permissions (assign_permission frame account account id sc) >> assign_all ids account sc

  abbrev pub inc_consumers_of : ℕ → Effect (State S L) (Unit {0})
  inc_consumers_of account s = elim (frame.inc_consumers account (s.permissions.system)) [
    | none ↦ (err (failed AssetsError.inc_ref_error), s)
    | some y ↦ (ok tt, record s { permissions = record (s.permissions) { system = y } })
  ]

  abbrev pub deposit_supply : ℕ → ℕ → ℕ → Effect (State S L) (Unit {0})
  deposit_supply asset account supply =
      if nat_eq supply 0 then pure tt else in_currency (money.deposit asset account supply)

  -- The end of `register_asset_id`, once the asset is stored.
  unfoldable pub endow : ℕ → ℕ → ℕ → Effect (State S L) (Unit {0})
  endow account asset supply = do
    assign_all owner_permissions account (limited (hash asset))
    deposit_supply asset account supply
    in_system (frame.inc_account_nonce account)
    deposit_event (asset_registered asset account)

  unfoldable pub register_asset_id :
      ℕ → ℕ → List ℕ → List ℕ → ℕ → ℕ → Bool → Effect (State S L) (Unit {0})
  unfolding asset_owner
  register_asset_id account asset symbol name precision supply mintable = do
    owner ← gets (asset_owner asset)
    require (not (is_some owner)) (failed AssetsError.asset_id_already_exists)
    inc_consumers_of account
    modify λ s. record s { asset_owners = insert s.asset_owners asset account }
    require (is_symbol_valid symbol) (failed AssetsError.invalid_asset_symbol)
    require (is_name_valid name) (failed AssetsError.invalid_asset_name)
    modify λ s. record s {
      asset_infos =
          insert s.asset_infos asset (record {
            symbol = symbol;
            name = name;
            precision = precision;
            is_mintable = mintable;
          });
    }
    require (leb precision max_allowed_precision) (failed AssetsError.invalid_precision)
    endow account asset supply

  unfoldable pub gen_asset_id : ℕ → State S L → ℕ
  gen_asset_id account s = digest_id account (frame.account_nonce account (s.permissions.system))

  unfoldable pub register_from : ℕ → List ℕ → List ℕ → ℕ → ℕ → Bool → Effect (State S L) ℕ
  unfolding gen_asset_id
  register_from account symbol name precision supply mintable = with_transaction do
    asset ← gets (gen_asset_id account)
    register_asset_id account asset symbol name precision supply mintable
    pure asset
