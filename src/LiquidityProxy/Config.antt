-- ===== src/LiquidityProxy/Config.antt =====
-- pallets/liquidity-proxy/src/lib.rs: what the pallet is configured with, the data that it returns,
-- and the conversions of errors. A panic stays a panic: it passes through every conversion.
use sora2_parachain.Prelude.{
  ℕ, ◌+◌, ◌%◌, ◌^◌, ◌≡◌, Option, none, some, List, ℤ, leb, arith, if◌then◌else◌,
}
use sora2_parachain.Common.Errors.{DispatchError, LiquidityProxyError, panicked}
use sora2_parachain.Common.Result.{Result, ok, err}
use sora2_parachain.Common.Fixed.{Fixnum, Checked}
use sora2_parachain.Common.Sources.{LiquidityRegistry, GetMarketInfo, GetPoolReserves, SourceId}
use sora2_parachain.TradingPairs

abbrev pub failed : LiquidityProxyError → DispatchError
failed = DispatchError.liquidity_proxy

abbrev pub calculation_failed : DispatchError
calculation_failed = failed LiquidityProxyError.calculation_error

abbrev pub Fallible : Type 0 → Type 0
Fallible A = Result DispatchError A

-- `map_err(|_| Error::<T>::CalculationError)` on an arithmetic error and on a failed conversion.
abbrev pub calculated : {A : Type 0} → Checked A → Fallible A
calculated (ok a) = ok a
calculated (err e) = err calculation_failed

abbrev pub converted : {A : Type 0} → Option A → Fallible A
converted (some a) = ok a
converted none = err calculation_failed

abbrev pub recast_error : DispatchError → DispatchError
recast_error panicked = panicked
recast_error _ = calculation_failed

-- The same on the error of another pallet.
abbrev pub recast : {A : Type 0} → Fallible A → Fallible A
recast (ok a) = ok a
recast (err e) = err (recast_error e)

abbrev pub default_for : {A : Type 0} → A → DispatchError → Fallible A
default_for a panicked = err panicked
default_for a _ = ok a

-- `unwrap_or` on the result of another pallet.
abbrev pub or_default : {A : Type 0} → A → Fallible A → Fallible A
or_default d (ok a) = ok a
or_default d (err e) = default_for d e

-- `unwrap`
abbrev pub unwrapped : {A : Type 0} → Option A → Fallible A
unwrapped (some a) = ok a
unwrapped none = err panicked

pub unwrapped-inversion : {A : Type 0} (r : Option A) {x : A} → unwrapped r ≡ ok x → r ≡ some x
unwrapped-inversion none h = absurd (ground arith)
unwrapped-inversion (some a) h = ground arith

pub converted-inversion : {A : Type 0} (r : Option A) {x : A} → converted r ≡ ok x → r ≡ some x
converted-inversion none h = absurd (ground arith)
converted-inversion (some a) h = ground arith

abbrev pub unwrapped_checked : {A : Type 0} → Checked A → Fallible A
unwrapped_checked (ok a) = ok a
unwrapped_checked (err e) = err panicked

-- `Balance::MAX`
abbrev pub max_balance : ℕ
max_balance = 340_282_366_920_938_463_463_374_607_431_768_211_455

-- A sum of `u128` values wraps in a release build.
abbrev pub wrapping_add : ℕ → ℕ → ℕ
wrapping_add a b = (a + b) % 2 ^ 128

abbrev pub checked_add : ℕ → ℕ → Option ℕ
checked_add a b = if leb (a + b) max_balance then some (a + b) else none

pub record AggregatedSwapOutcome : Type 0 where
  pub distribution : List (SourceId × ℤ)
  pub amount : ℕ
  pub fee : ℕ

pub record Exchange : Type 0 where
  pub caller : ℕ
  pub dex_id : ℕ
  pub input_asset_id : ℕ
  pub output_asset_id : ℕ
  pub input_amount : ℕ
  pub output_amount : ℕ
  pub fee : ℕ

-- `Config`, with the storage `S` of the runtime. `P` is what the pallet `permissions` keeps.
pub record Env (S P : Type 0) : Type 0 where
  pub registry : LiquidityRegistry S
  pub primary_market : GetMarketInfo S
  pub secondary_market : GetPoolReserves S
  pub fx : Fixnum
  pub base_asset : ℕ
  pub num_samples : ℕ
  pub technical_account : ℕ
  pub trading_pairs : S → TradingPairs.State P
  pub deposit_event : Exchange → S → S
