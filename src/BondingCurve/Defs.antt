-- ===== src/BondingCurve/Defs.antt =====
-- pallets/bonding-curve-pool/src/lib.rs: the storage of the pallet, its configuration, and its genesis.
use sora2_parachain.Prelude.{ℕ, Option, some, none, List, [], ◌∷◌, ℤ, pos}
use sora2_parachain.Common.Errors.{DispatchError, BondingCurveError, calculate_price_failed}
use sora2_parachain.Common.Result.{Result, ok, err}
use sora2_parachain.Common.Effects.{Effect, on_part}
use sora2_parachain.Common.Fixed.{Fixnum, Checked}
use sora2_parachain.Common.Primitives.{TechAccountId, wrapped}
use sora2_parachain.Common.Sources.{LiquiditySource}
use sora2_parachain.Assets
use sora2_parachain.Technical

abbrev pub Fallible : Type 0 → Type 0
Fallible A = Result DispatchError A

abbrev pub failed : BondingCurveError → DispatchError
failed = DispatchError.bonding_curve

-- `map_err(|_| Error::<T>::CalculatePriceFailed)` on an arithmetic error and on a failed conversion.
abbrev pub priced : {A : Type 0} → Checked A → Fallible A
priced (ok a) = ok a
priced (err e) = err (failed calculate_price_failed)

abbrev pub converted : {A : Type 0} → Option A → Fallible A
converted (some a) = ok a
converted none = err (failed calculate_price_failed)

pub data DistributionAccount : Type 0 where
  account : ℕ → DistributionAccount
  tech_account : TechAccountId → DistributionAccount

pub record DistributionAccountData : Type 0 where
  pub account : DistributionAccount
  pub coefficient : ℤ

pub record DistributionAccounts (Data : Type 0) : Type 0 where
  pub xor_allocation : Data
  pub sora_citizens : Data
  pub stores_and_shops : Data
  pub parliament_and_development : Data
  pub projects : Data
  pub val_holders : Data

unfoldable pub xor_distribution_as_array :
    DistributionAccounts DistributionAccountData → List DistributionAccountData
xor_distribution_as_array d =
    d.xor_allocation ∷ d.sora_citizens ∷ d.stores_and_shops ∷ d.parliament_and_development
    ∷ d.projects ∷ []

unfoldable pub xor_distribution_accounts_as_array :
    DistributionAccounts DistributionAccountData → List DistributionAccount
xor_distribution_accounts_as_array d =
    d.xor_allocation.account ∷ d.sora_citizens.account ∷ d.stores_and_shops.account
    ∷ d.parliament_and_development.account ∷ d.projects.account ∷ []

unfoldable pub accounts : DistributionAccounts DistributionAccountData → List DistributionAccount
accounts d =
    d.xor_allocation.account ∷ d.sora_citizens.account ∷ d.stores_and_shops.account
    ∷ d.parliament_and_development.account ∷ d.projects.account ∷ d.val_holders.account ∷ []

-- `Default`, with `TechAccountId::default()`; the argument is the default account id.
abbrev pub default_account : ℕ → DistributionAccount
default_account a = tech_account (wrapped a)

abbrev pub default_data : ℕ → DistributionAccountData
default_data a = record { account = default_account a; coefficient = pos 0 }

abbrev pub default_accounts : ℕ → DistributionAccounts DistributionAccountData
default_accounts a = record {
  xor_allocation = default_data a;
  sora_citizens = default_data a;
  stores_and_shops = default_data a;
  parliament_and_development = default_data a;
  projects = default_data a;
  val_holders = default_data a;
}

pub data SwapKind : Type 0 where
  buy sell : SwapKind

-- The values of the curve that the storage keeps, as the bits of a `Fixed`.
pub record Curve : Type 0 where
  pub fee : ℤ
  pub initial_price : ℤ
  pub price_change_step : ℤ
  pub price_change_rate : ℤ
  pub sell_price_coefficient : ℤ

-- fixed!(0.001), fixed!(99.3), fixed!(5000), fixed!(100) and fixed!(0.8)
abbrev pub default_curve : Curve
default_curve = record {
  fee = pos 1_000_000_000_000_000;
  initial_price = pos 99_300_000_000_000_000_000;
  price_change_step = pos 5_000_000_000_000_000_000_000;
  price_change_rate = pos 100_000_000_000_000_000_000;
  sell_price_coefficient = pos 800_000_000_000_000_000;
}

-- The storage of the pallet with that of `technical`, and `rest` for what `T::DEXApi` keeps.
pub record State (S L R : Type 0) : Type 0 where
  pub technical : Technical.State S L
  pub reserves_acc : TechAccountId
  pub curve : Curve
  pub distribution_accounts : DistributionAccounts DistributionAccountData
  pub rest : R

-- `Config`: the gateway `T::DEXApi`, and the ids of XOR, USDT and VAL.
pub record Env (S L R : Type 0) : Type 0 where
  pub technical_env : Technical.Env S L
  pub dex_api : LiquiditySource ℕ (State S L R)
  pub fx : Fixnum
  pub base_asset : ℕ
  pub usdt : ℕ
  pub val : ℕ

-- `DEXId::Polkaswap`
abbrev pub polkaswap : ℕ
polkaswap = 0

module _ {S L R : Type 0} where
  abbrev pub in_technical : {A : Type 0} → Effect (Technical.State S L) A → Effect (State S L R) A
  in_technical = on_part (λ s. s.technical) (λ s t. record s { technical = t })

  abbrev pub in_assets : {A : Type 0} → Effect (Assets.Defs.State S L) A → Effect (State S L R) A
  in_assets m = in_technical (on_part (λ t. t.assets) (λ t a. record t { assets = a }) m)

  unfoldable pub set_distribution_accounts :
      DistributionAccounts DistributionAccountData → State S L R → State S L R
  set_distribution_accounts d s = record s { distribution_accounts = d }

  -- `GenesisConfig::build`
  unfoldable pub genesis_build :
      TechAccountId → DistributionAccounts DistributionAccountData → State S L R → State S L R
  genesis_build reserves d s = record s { reserves_acc = reserves; distribution_accounts = d }
