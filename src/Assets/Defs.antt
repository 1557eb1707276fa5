-- ===== src/Assets/Defs.antt =====
-- pallets/assets/src/lib.rs: the storage of the pallet, its environment, and the syntax of names.
use sora2_parachain.Prelude.{
  ℕ, Bool, true, false, ◌&&◌, ◌||◌, List, [], ◌∷◌, leb, nat_eq, length, ℤ,
}
use sora2_parachain.Common.Primitives.{AssetIdExtraAssetRecordArg}
use sora2_parachain.Common.Storage.{StorageMap}
use sora2_parachain.Common.FrameSystem.{FrameSystem}
use sora2_parachain.Common.Currency.{Currency}
use sora2_parachain.Permissions.Defs.{transfer_id, mint_id, burn_id}
use sora2_parachain.Permissions

-- `(AssetSymbol, AssetName, BalancePrecision, bool)`; symbols and names are byte vectors.
pub record AssetInfo : Type 0 where
  pub symbol : List ℕ
  pub name : List ℕ
  pub precision : ℕ
  pub is_mintable : Bool

abbrev pub default_info : AssetInfo
default_info = record { symbol = []; name = []; precision = 0; is_mintable = false }

pub data AssetRecordArg : Type 0 where
  generic_i32 : ℤ → AssetRecordArg
  generic_u64 generic_u128 : ℕ → AssetRecordArg
  generic_u8x32 : List ℕ → AssetRecordArg
  generic_h256 generic_h512 : ℕ → AssetRecordArg
  leaf_asset_id asset_record_asset_id : ℕ → AssetRecordArg
  extra_arg : AssetIdExtraAssetRecordArg → AssetRecordArg

pub data AssetRecord : Type 0 where
  arity0 : AssetRecord
  arity1 : AssetRecordArg → AssetRecord
  arity2 : AssetRecordArg → AssetRecordArg → AssetRecord
  arity3 : AssetRecordArg → AssetRecordArg → AssetRecordArg → AssetRecord
  arity4 : AssetRecordArg → AssetRecordArg → AssetRecordArg → AssetRecordArg → AssetRecord
  arity5 :
      AssetRecordArg
      → AssetRecordArg
      → AssetRecordArg
      → AssetRecordArg
      → AssetRecordArg
      → AssetRecord
  arity6 :
      AssetRecordArg
      → AssetRecordArg
      → AssetRecordArg
      → AssetRecordArg
      → AssetRecordArg
      → AssetRecordArg
      → AssetRecord
  arity7 :
      AssetRecordArg
      → AssetRecordArg
      → AssetRecordArg
      → AssetRecordArg
      → AssetRecordArg
      → AssetRecordArg
      → AssetRecordArg
      → AssetRecord
  arity8 :
      AssetRecordArg
      → AssetRecordArg
      → AssetRecordArg
      → AssetRecordArg
      → AssetRecordArg
      → AssetRecordArg
      → AssetRecordArg
      → AssetRecordArg
      → AssetRecord
  arity9 :
      AssetRecordArg
      → AssetRecordArg
      → AssetRecordArg
      → AssetRecordArg
      → AssetRecordArg
      → AssetRecordArg
      → AssetRecordArg
      → AssetRecordArg
      → AssetRecordArg
      → AssetRecord

-- An entry of `endowed_assets`.
pub record EndowedAsset : Type 0 where
  pub asset : ℕ
  pub account : ℕ
  pub symbol : List ℕ
  pub name : List ℕ
  pub precision : ℕ
  pub supply : ℕ
  pub is_mintable : Bool

pub data Event : Type 0 where
  asset_registered : ℕ → ℕ → Event
  transfer : ℕ → ℕ → ℕ → ℕ → Event
  mint : ℕ → ℕ → ℕ → ℕ → Event
  burn : ℕ → ℕ → ℕ → Event
  asset_set_non_mintable : ℕ → Event

-- The storage of the pallet with that of `permissions` and of the currencies.
pub record State (S L : Type 0) : Type 0 where
  pub permissions : Permissions.Defs.State S
  pub asset_owners : StorageMap ℕ ℕ
  pub asset_infos : StorageMap ℕ AssetInfo
  pub asset_records : StorageMap ℕ AssetRecord
  pub currency : L
  pub events : List Event

-- What the pallet uses of others: `frame_system`, `T::Currency`, the hash of an asset id (`common::
-- hash`, a `blake2b`), the generators of asset ids (Keccak digests), and `AccountId::default()`.
pub record Env (S L : Type 0) : Type 0 where
  pub frame : FrameSystem S
  pub money : Currency L
  pub hash : ℕ → ℕ
  pub digest_id : ℕ → ℕ → ℕ
  pub record_id : AssetRecord → ℕ
  pub default_account : ℕ

abbrev pub asset_symbol_max_length : ℕ
asset_symbol_max_length = 7

abbrev pub asset_name_max_length : ℕ
asset_name_max_length = 33

abbrev pub max_allowed_precision : ℕ
max_allowed_precision = 18

abbrev pub default_balance_precision : ℕ
default_balance_precision = 18

abbrev pub within : ℕ → ℕ → ℕ → Bool
within lo hi b = leb lo b && leb b hi

unfoldable pub all_bytes : (ℕ → Bool) → List ℕ → Bool
all_bytes p [] = true
all_bytes p (b ∷ bs) = p b && all_bytes p bs

abbrev pub is_symbol_byte : ℕ → Bool
is_symbol_byte b = within b'A' b'Z' b

abbrev pub is_name_byte : ℕ → Bool
is_name_byte b = within b'A' b'Z' b || within b'a' b'z' b || within b'0' b'9' b || nat_eq b b' '

unfoldable pub is_symbol_valid : List ℕ → Bool
unfolding all_bytes
is_symbol_valid s = leb (length s) asset_symbol_max_length && all_bytes is_symbol_byte s

unfoldable pub is_name_valid : List ℕ → Bool
unfolding all_bytes
is_name_valid n = leb (length n) asset_name_max_length && all_bytes is_name_byte n

-- The permissions that the owner of a new asset is assigned.
abbrev pub owner_permissions : List ℕ
owner_permissions = transfer_id ∷ mint_id ∷ burn_id ∷ []
