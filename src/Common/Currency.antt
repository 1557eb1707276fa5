-- ===== src/Common/Currency.antt =====
-- The third-party currencies behind `T::Currency` (`MultiCurrency` and its extensions), as far as
-- pallets/assets/src/lib.rs calls them. Their storage `L` and their calls are parameters.
use sora2_parachain.Prelude.{ℕ, ◌+◌, ◌-◌, Bool, ℤ, pos, negsuc, leb, nat_eq, if◌then◌else◌}
use sora2_parachain.Common.Errors.{DispatchError}
use sora2_parachain.Common.Result.{Result, ok, err}
use sora2_parachain.Common.Effects.{Effect}

pub record Currency (L : Type 0) : Type 0 where
  pub free_balance : ℕ → ℕ → L → ℕ
  pub total_balance : ℕ → ℕ → L → ℕ
  pub total_issuance : ℕ → L → ℕ
  pub ensure_can_withdraw : ℕ → ℕ → ℕ → L → Result DispatchError (Unit {0})
  pub transfer : ℕ → ℕ → ℕ → ℕ → Effect L (Unit {0})
  pub deposit : ℕ → ℕ → ℕ → Effect L (Unit {0})
  pub withdraw : ℕ → ℕ → ℕ → Effect L (Unit {0})
  pub update_balance : ℕ → ℕ → ℤ → Effect L (Unit {0})
  pub can_reserve : ℕ → ℕ → ℕ → L → Bool
  pub reserve : ℕ → ℕ → ℕ → Effect L (Unit {0})
  pub unreserve : ℕ → ℕ → ℕ → Effect L ℕ

-- Balances as a function of the asset and the account.
abbrev pub Sheet : Type 0
Sheet = ℕ → ℕ → ℕ

abbrev pub credit : ℕ → ℕ → ℕ → Sheet → Sheet
credit a who n b =
    λ a' w. if nat_eq a a' then (if nat_eq who w then b a' w + n else b a' w) else b a' w

abbrev pub debit : ℕ → ℕ → ℕ → Sheet → Sheet
debit a who n b =
    λ a' w. if nat_eq a a' then (if nat_eq who w then b a' w - n else b a' w) else b a' w

abbrev pub withdrawn : ℕ → ℕ → ℕ → Effect Sheet (Unit {0})
withdrawn a who n b =
    if leb n (b a who) then (ok tt, debit a who n b) else (err (DispatchError.external 0), b)

abbrev pub transferred : ℕ → ℕ → ℕ → ℕ → Effect Sheet (Unit {0})
transferred a from to n b =
    if leb n (b a from)
    then (ok tt, credit a to n (debit a from n b))
    else (err (DispatchError.external 0), b)

abbrev pub updated : ℕ → ℕ → ℤ → Effect Sheet (Unit {0})
updated a who (pos n) b = (ok tt, credit a who n b)
updated a who (negsuc n) b = withdrawn a who (n + 1) b

-- A currency without reserves, in which balances are all that there is.
abbrev pub sheet_currency : Currency Sheet
sheet_currency = record {
  free_balance = λ a who b. b a who;
  total_balance = λ a who b. b a who;
  total_issuance = λ a b. 0;
  ensure_can_withdraw = λ a who n b. (withdrawn a who n b).0;
  transfer = transferred;
  deposit = λ a who n b. (ok tt, credit a who n b);
  withdraw = withdrawn;
  update_balance = updated;
  can_reserve = λ a who n b. leb n 0;
  reserve = λ a who n b. (err (DispatchError.external 1), b);
  unreserve = λ a who n b. (ok n, b);
}
