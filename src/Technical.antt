-- ===== src/Technical.antt =====
-- The pallet `technical` (pallets/technical/src/lib.rs): accounts of the pallets themselves, and
-- swaps that reserve and claim.
pub mod Swaps
pub mod Assign
pub mod Laws
use sora2_parachain.Prelude.{ℕ, eq_ℕ, List, [], ◌∷◌, Option, none, some, if◌then◌else◌}
use sora2_parachain.Common.Errors.{DispatchError, TechnicalError}
use sora2_parachain.Common.Result.{Result, ok, err, ok_or, map_err}
use sora2_parachain.Common.Result
use sora2_parachain.Common.Storage.{StorageMap, get, insert}
use sora2_parachain.Common.Effects.{Effect, ◌>>=◌, ◌>>◌, pure, reads, gets, modify, on_part}
use sora2_parachain.Common.Primitives.{TechAccountId}
use sora2_parachain.Assets
use sora2_parachain.Assets.Transfers.{transfer_from, mint_to, burn_from}

abbrev pub failed : TechnicalError → DispatchError
failed = DispatchError.technical

-- The storage of the pallet with that of `assets`.
pub record State (S L : Type 0) : Type 0 where
  pub assets : Assets.Defs.State S L
  pub tech_accounts : StorageMap ℕ TechAccountId

-- The environment of `assets`; the bytes of a technical account's representation (a prefix and two
-- `twox_hash` digests); and the decoding of an account id from bytes.
pub record Env (S L : Type 0) : Type 0 where
  pub assets_env : Assets.Defs.Env S L
  pub encoded_to_account_id_32 : TechAccountId → ℕ
  pub decode : ℕ → Option ℕ

module _ {S L : Type 0} (env : Env S L) where
  open env use {assets_env, encoded_to_account_id_32, decode}

  unfoldable pub tech_account_id_to_account_id : TechAccountId → Result DispatchError ℕ
  tech_account_id_to_account_id tech =
      ok_or (decode (encoded_to_account_id_32 tech))
        (failed TechnicalError.decode_account_id_failed)

  unfoldable pub lookup_tech_account_id : ℕ → State S L → Result DispatchError TechAccountId
  lookup_tech_account_id account s =
      ok_or (get s.tech_accounts account) (failed TechnicalError.associated_account_id_not_found)

  unfoldable pub ensure_account_registered : ℕ → State S L → Result DispatchError TechAccountId
  unfolding lookup_tech_account_id
  ensure_account_registered account s =
      map_err (λ _. failed TechnicalError.tech_account_id_is_not_registered)
        (lookup_tech_account_id account s)

  unfoldable pub ensure_tech_account_registered :
      TechAccountId → State S L → Result DispatchError (Unit {0})
  unfolding ensure_account_registered
  ensure_tech_account_registered tech s =
      Result.◌>>=◌ (tech_account_id_to_account_id tech)
        (λ account. Result.◌>>=◌ (ensure_account_registered account s) (λ _. ok tt))

  abbrev pub in_assets : {A : Type 0} → Effect (Assets.Defs.State S L) A → Effect (State S L) A
  in_assets = on_part (λ s. s.assets) (λ s a. record s { assets = a })

  abbrev pub inc_providers : ℕ → Effect (State S L) (Unit {0})
  inc_providers account = modify λ s. record s {
    assets = record (s.assets) {
      permissions = record (s.assets.permissions) {
        system = assets_env.frame.inc_providers account (s.assets.permissions.system);
      };
    };
  }

  abbrev pub set_tech_account : ℕ → TechAccountId → Effect (State S L) (Unit {0})
  set_tech_account account tech =
      modify λ s. record s { tech_accounts = insert s.tech_accounts account tech }

  unfoldable pub register_tech_account_id : TechAccountId → Effect (State S L) (Unit {0})
  register_tech_account_id tech = do
    account ← reads λ s. tech_account_id_to_account_id tech
    inc_providers account
    set_tech_account account tech

  -- `GenesisConfig::build`
  unfoldable pub genesis_build : List (ℕ × TechAccountId) → State S L → State S L
  genesis_build [] s = s
  genesis_build ((account, tech) ∷ rest) s =
      genesis_build rest (set_tech_account account tech (inc_providers account s).1).1

  abbrev pub set_if_missing :
      ℕ → TechAccountId → Result DispatchError TechAccountId → Effect (State S L) (Unit {0})
  set_if_missing account tech (ok known) = pure tt
  set_if_missing account tech (err e) = set_tech_account account tech

  unfoldable pub register_tech_account_id_if_not_exist :
      TechAccountId → Effect (State S L) (Unit {0})
  register_tech_account_id_if_not_exist tech = do
    account ← reads λ s. tech_account_id_to_account_id tech
    inc_providers account
    known ← gets λ s. lookup_tech_account_id account s
    set_if_missing account tech known

  unfoldable pub transfer_in : ℕ → ℕ → TechAccountId → ℕ → Effect (State S L) (Unit {0})
  unfolding tech_account_id_to_account_id ensure_account_registered
  transfer_in asset source tech_dest amount = do
    to ← reads λ s. tech_account_id_to_account_id tech_dest
    known ← reads (ensure_account_registered to)
    in_assets (transfer_from assets_env asset source to amount)

  unfoldable pub transfer_out : ℕ → TechAccountId → ℕ → ℕ → Effect (State S L) (Unit {0})
  unfolding tech_account_id_to_account_id ensure_account_registered
  transfer_out asset tech_source to amount = do
    from ← reads λ s. tech_account_id_to_account_id tech_source
    known ← reads (ensure_account_registered from)
    in_assets (transfer_from assets_env asset from to amount)

  unfoldable pub transfer : ℕ → TechAccountId → TechAccountId → ℕ → Effect (State S L) (Unit {0})
  unfolding tech_account_id_to_account_id ensure_account_registered
  transfer asset tech_source tech_dest amount = do
    from ← reads λ s. tech_account_id_to_account_id tech_source
    known_from ← reads (ensure_account_registered from)
    to ← reads λ s. tech_account_id_to_account_id tech_dest
    known_to ← reads (ensure_account_registered to)
    in_assets (transfer_from assets_env asset from to amount)

  unfoldable pub mint : ℕ → TechAccountId → ℕ → Effect (State S L) (Unit {0})
  unfolding tech_account_id_to_account_id ensure_account_registered
  mint asset tech_dest amount = do
    account ← reads λ s. tech_account_id_to_account_id tech_dest
    known ← reads (ensure_account_registered account)
    in_assets (mint_to assets_env asset account account amount)

  unfoldable pub burn : ℕ → TechAccountId → ℕ → Effect (State S L) (Unit {0})
  unfolding tech_account_id_to_account_id ensure_account_registered
  burn asset tech_dest amount = do
    account ← reads λ s. tech_account_id_to_account_id tech_dest
    known ← reads (ensure_account_registered account)
    in_assets (burn_from assets_env asset account account amount)

  unfoldable pub total_balance : ℕ → TechAccountId → State S L → Result DispatchError ℕ
  unfolding tech_account_id_to_account_id ensure_account_registered
  total_balance asset tech s = Result.◌>>=◌ (tech_account_id_to_account_id tech) (λ account.
      Result.◌>>=◌ (ensure_account_registered account s)
        (λ _. Assets.Transfers.total_balance assets_env asset account s.assets))
