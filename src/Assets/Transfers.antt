-- ===== src/Assets/Transfers.antt =====
-- pallets/assets/src/lib.rs: the calls that read, move, mint and burn balances.
use sora2_parachain.Prelude.{
  ℕ, eq_ℕ, Bool, false, not, ◌&&◌, Option, List, [], ◌∷◌, ℤ, pos, negsuc, ltb, nat_eq, map,
  if◌then◌else◌,
}
use sora2_parachain.Common.Errors.{DispatchError, AssetsError}
use sora2_parachain.Common.Result.{Result, ok, err}
use sora2_parachain.Common.Result
use sora2_parachain.Common.Storage.{insert}
use sora2_parachain.Common.Effects.{Effect, ◌>>=◌, ◌>>◌, pure, raise, reads, modify, require, gets}
use sora2_parachain.Permissions.Defs.{mint_id, transfer_id, burn_id}
use sora2_parachain.Assets.Defs.{
  AssetInfo, EndowedAsset, transfer, mint, burn, asset_set_non_mintable, State, Env,
  default_balance_precision,
}
use sora2_parachain.Assets.Operations.{
  failed, ensure_signed, in_currency, deposit_event, ensure_asset_exists, is_asset_owner, info_of,
  check_permission_maybe_with_parameters, register_from, register_asset_id,
}

module _ {S L : Type 0} (env : Env S L) where
  open env use {money}

  unfoldable pub total_issuance : ℕ → State S L → Result DispatchError ℕ
  total_issuance asset s =
      Result.◌>>◌ (ensure_asset_exists env asset s) (ok (money.total_issuance asset s.currency))

  unfoldable pub total_balance : ℕ → ℕ → State S L → Result DispatchError ℕ
  total_balance asset who s =
      Result.◌>>◌ (ensure_asset_exists env asset s) (ok (money.total_balance asset who s.currency))

  unfoldable pub free_balance : ℕ → ℕ → State S L → Result DispatchError ℕ
  free_balance asset who s =
      Result.◌>>◌ (ensure_asset_exists env asset s) (ok (money.free_balance asset who s.currency))

  abbrev pub exists : ℕ → Effect (State S L) (Unit {0})
  exists asset = reads (ensure_asset_exists env asset)

  abbrev pub permitted : ℕ → ℕ → ℕ → Effect (State S L) (Unit {0})
  permitted who id asset = reads (check_permission_maybe_with_parameters env who id asset)

  unfoldable pub ensure_can_withdraw : ℕ → ℕ → ℕ → Effect (State S L) (Unit {0})
  ensure_can_withdraw asset who amount = do
    exists asset
    permitted who transfer_id asset
    reads λ s. money.ensure_can_withdraw asset who amount s.currency

  unfoldable pub transfer_from : ℕ → ℕ → ℕ → ℕ → Effect (State S L) (Unit {0})
  transfer_from asset from to amount = do
    exists asset
    permitted from transfer_id asset
    in_currency env (money.transfer asset from to amount)

  unfoldable pub force_transfer : ℕ → ℕ → ℕ → ℕ → Effect (State S L) (Unit {0})
  force_transfer asset from to amount = in_currency env (money.transfer asset from to amount)

  unfoldable pub mint_to : ℕ → ℕ → ℕ → ℕ → Effect (State S L) (Unit {0})
  mint_to asset issuer to amount = do
    exists asset
    permitted issuer mint_id asset
    info ← gets (info_of env asset)
    require info.is_mintable (failed AssetsError.asset_supply_is_not_mintable)
    in_currency env (money.deposit asset to amount)

  unfoldable pub burn_from : ℕ → ℕ → ℕ → ℕ → Effect (State S L) (Unit {0})
  burn_from asset issuer to amount = do
    exists asset
    if nat_eq issuer to then pure tt else permitted issuer burn_id asset
    in_currency env (money.withdraw asset to amount)

  -- `Amount::is_positive`
  abbrev pub is_positive : ℤ → Bool
  is_positive (pos n) = ltb 0 n
  is_positive (negsuc n) = false

  unfoldable pub update_balance : ℕ → ℕ → ℤ → Effect (State S L) (Unit {0})
  update_balance asset who by_amount = do
    permitted who mint_id asset
    permitted who burn_id asset
    info ← gets (info_of env asset)
    require (not (is_positive by_amount && not info.is_mintable))
        (failed AssetsError.asset_supply_is_not_mintable)
    in_currency env (money.update_balance asset who by_amount)

  unfoldable pub can_reserve : ℕ → ℕ → ℕ → State S L → Bool
  can_reserve asset who amount s = money.can_reserve asset who amount s.currency

  unfoldable pub reserve : ℕ → ℕ → ℕ → Effect (State S L) (Unit {0})
  reserve asset who amount = do exists asset; in_currency env (money.reserve asset who amount)

  unfoldable pub unreserve : ℕ → ℕ → ℕ → Effect (State S L) ℕ
  unreserve asset who amount = do exists asset; in_currency env (money.unreserve asset who amount)

  abbrev pub set_info : ℕ → AssetInfo → State S L → State S L
  set_info asset i s = record s { asset_infos = insert s.asset_infos asset i }

  -- The closure of `AssetInfos::<T>::mutate`; the tuple is written back on both paths.
  abbrev pub make_non_mintable : ℕ → AssetInfo → Effect (State S L) (Unit {0})
  make_non_mintable asset i =
      if i.is_mintable
      then modify (set_info asset (record i { is_mintable = false }))
      else (modify (set_info asset i) >> raise (failed AssetsError.asset_supply_is_not_mintable))

  unfoldable pub set_non_mintable_from : ℕ → ℕ → Effect (State S L) (Unit {0})
  set_non_mintable_from asset who = do
    owner ← gets (is_asset_owner env asset who)
    require owner (failed AssetsError.invalid_asset_owner)
    info ← gets (info_of env asset)
    make_non_mintable asset info

  unfoldable pub list_registered_asset_ids : State S L → List ℕ
  list_registered_asset_ids s = map (λ e. e.0) s.asset_infos

  unfoldable pub list_registered_asset_infos : State S L → List (ℕ × AssetInfo)
  list_registered_asset_infos s = s.asset_infos

  unfoldable pub get_asset_info : ℕ → State S L → AssetInfo
  get_asset_info asset s = info_of env asset s

  -- `GenesisConfig::build`; `expect` panics if an asset is refused.
  abbrev expected :
      Result DispatchError (Unit {0}) × State S L → Result DispatchError (Unit {0}) × State S L
  expected (ok u, s) = (ok tt, s)
  expected (err e, s) = (err DispatchError.panicked, s)

  unfoldable pub genesis_build : List EndowedAsset → Effect (State S L) (Unit {0})
  genesis_build [] = pure tt
  genesis_build (a ∷ rest) =
      (λ s. expected (
        register_asset_id env a.account a.asset a.symbol a.name a.precision a.supply a.is_mintable
          s))
      >> genesis_build rest

  -- The extrinsics.
  unfoldable pub register_call :
      Option ℕ → List ℕ → List ℕ → ℕ → Bool → Effect (State S L) (Unit {0})
  register_call origin symbol name supply mintable = do
    author ← ensure_signed origin
    asset ← register_from env author symbol name default_balance_precision supply mintable
    pure tt

  unfoldable pub transfer_call : Option ℕ → ℕ → ℕ → ℕ → Effect (State S L) (Unit {0})
  unfolding transfer_from
  transfer_call origin asset to amount = do
    from ← ensure_signed origin
    transfer_from asset from to amount
    deposit_event env (transfer from to asset amount)

  unfoldable pub mint_call : Option ℕ → ℕ → ℕ → ℕ → Effect (State S L) (Unit {0})
  unfolding mint_to
  mint_call origin asset to amount = do
    issuer ← ensure_signed origin
    mint_to asset issuer to amount
    deposit_event env (mint issuer to asset amount)

  unfoldable pub burn_call : Option ℕ → ℕ → ℕ → Effect (State S L) (Unit {0})
  unfolding burn_from
  burn_call origin asset amount = do
    issuer ← ensure_signed origin
    burn_from asset issuer issuer amount
    deposit_event env (burn issuer asset amount)

  unfoldable pub set_non_mintable_call : Option ℕ → ℕ → Effect (State S L) (Unit {0})
  unfolding set_non_mintable_from
  set_non_mintable_call origin asset = do
    who ← ensure_signed origin
    set_non_mintable_from asset who
    deposit_event env (asset_set_non_mintable asset)
