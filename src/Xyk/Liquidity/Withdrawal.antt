-- ===== src/Xyk/Liquidity/Withdrawal.antt =====
-- pallets/pool-xyk/src/action_withdraw_liquidity.rs: what a withdrawal that was prepared takes out.
use sora2_parachain.Prelude.{ℕ, ◌+◌, ◌*◌, ◌/◌, ◌≤◌, ◌<◌, ◌≡◌, ◌∙◌, ap, sym, ltb, leb, arith}
use native.Mathlib.Nat.{mul-le-mul_left, lt_of_mul-lt-mul_right}
use sora2_parachain.Common.Errors.{XykError}
use sora2_parachain.Common.Result.{ok, >>=-eq-ok, ensure-eq-ok}
use sora2_parachain.Common.Fixed.{Fixnum, IsFloored, one}
use sora2_parachain.Xyk.Bounds.{Bounds, calculated, desired, meets_the_boundaries}
use sora2_parachain.Xyk.Bounds
use sora2_parachain.Xyk.Math.{Outcome}
use sora2_parachain.Xyk.Math.Deposit.{quote-le, quote-near}
use sora2_parachain.Xyk.Defs.{WithdrawLiquidityAction, min_liquidity}
use sora2_parachain.Xyk.PairSwap.Prepare.{unwrapped, zero_error, pool_has_liquidity}
use sora2_parachain.Xyk.PairSwap.Inversion.{ltb-lt, leb-le, liquidity-positive}
use sora2_parachain.Xyk.Liquidity.Withdraw.{
  fit_amount, part_of, decide_amounts, settle, set_first, set_second,
}

-- A part is at most the exact share of the balance, and close to it.
abbrev pub IsShare : ℕ → ℕ → ℕ → ℕ → Type 0
IsShare balance k total x =
    (x * (total + min_liquidity) ≤ balance * k)
    × (balance * k < x * (total + min_liquidity) + (total + min_liquidity) + one)

module _ (fx : Fixnum) (laws : IsFloored fx) where
  open laws use {cadd_lem, rmul_lem, rdiv_lem}

  part_of-value :
      (balance k total : ℕ) {x : ℕ}
      → part_of fx balance k total ≡ ok x
      → x ≡ balance * k / one * one / (total + min_liquidity)
  part_of-value balance k total h = ground (
    arith,
    cadd_lem total min_liquidity,
    rmul_lem balance k,
    rdiv_lem (balance * k / one) (total + min_liquidity) (omega arith),
  )

  pub part_of-IsShare :
      (balance k total : ℕ) {x : ℕ} → part_of fx balance k total ≡ ok x → IsShare balance k total x
  part_of-IsShare balance k total h =
      let d = total + min_liquidity in
      let positive : 0 < d = omega arith in
      let e = part_of-value balance k total h in
      rw e (
        quote-le (balance * k) d one (omega arith) positive,
        quote-near (balance * k) d one (omega arith) positive,
      )

-- A withdrawal of marker tokens that were issued leaves something of the asset in the pool.
pub part_of-below :
    (fx : Fixnum) (laws : IsFloored fx) (balance k total : ℕ) {x : ℕ}
    → part_of fx balance k total ≡ ok x
    → k ≤ total
    → 0 < balance
    → x < balance
part_of-below fx laws balance k total {x} h issued positive =
    let (under, near) = part_of-IsShare fx laws balance k total h in
    let most : balance * k ≤ balance * total = mul-le-mul_left balance issued in
    let less : x * (total + min_liquidity) < balance * (total + min_liquidity) = omega arith in
    lt_of_mul-lt-mul_right (total + min_liquidity) less

fit-inversion :
    (e : XykError) (put : Bounds → WithdrawLiquidityAction → WithdrawLiquidityAction) (x m : ℕ)
    (a a' : WithdrawLiquidityAction)
    → fit_amount e put x (Bounds.min m) a ≡ ok a'
    → (m ≤ x) × (a' ≡ put (calculated x) a)
unfolding meets_the_boundaries Bounds.to_option
fit-inversion e put x m a a' h = ground arith

pub ok_same :
    (a b : WithdrawLiquidityAction)
    → ◌≡◌ {A = Outcome WithdrawLiquidityAction} (ok a) (ok b)
    → a ≡ b
ok_same a b h = ground arith

desired_amount : {k n : ℕ} (b : Bounds) → b ≡ desired k → unwrapped (Bounds.unwrap b) ≡ ok n → k ≡ n
unfolding Bounds.unwrap
desired_amount b e h = ground arith

module _ (fx : Fixnum) (bp tp : ℕ) where
  abbrev pub taken : ℕ → ℕ → WithdrawLiquidityAction → WithdrawLiquidityAction
  taken x y a = set_second (calculated y) (set_first (calculated x) a)

  -- A withdrawal of `k` with minimal amounts.
  abbrev pub IsPriced : ℕ → ℕ → ℕ → ℕ → ℕ → ℕ → Type 0
  IsPriced k total mx my x y =
      (part_of fx bp k total ≡ ok x)
      × (part_of fx tp k total ≡ ok y)
      × (mx ≤ x)
      × (my ≤ y)
      × (0 < k)

  priced :
      (total k mx my : ℕ) (a a' : WithdrawLiquidityAction)
      → a.destination.first.amount ≡ Bounds.min mx
      → a.destination.second.amount ≡ Bounds.min my
      → decide_amounts fx bp tp total (desired k) a ≡ ok a'
      → (x y : ℕ) × IsPriced k total mx my x y × (a' ≡ taken x y a)
  unfolding decide_amounts
  priced total k mx my a a' ex ey h =
      let (positive, h1) = ensure-eq-ok (ltb 0 k) zero_error _ h in
      let (x, e1, h2) = >>=-eq-ok (part_of fx bp k total) _ h1 in
      let (y, e2, h3) = >>=-eq-ok (part_of fx tp k total) _ h2 in
      let basic = XykError.invalid_withdraw_liquidity_basic_asset_amount in
      let target = XykError.invalid_withdraw_liquidity_target_asset_amount in
      let (a1, e3, h4) =
        >>=-eq-ok (fit_amount basic set_first x a.destination.first.amount a) _ h3 in
      let (low_x, same_x) =
        fit-inversion basic set_first x mx a a1
          (ap (λ b. fit_amount basic set_first x b a) (sym ex) ∙ e3) in
      let (low_y, same_y) =
        fit-inversion target set_second y my a1 a'
          (ap (λ b. fit_amount target set_second y b a1) (sym ey) ∙ h4) in
      (
        x,
        y,
        (e1, e2, low_x, low_y, ltb-lt k positive),
        same_y ∙ ap (set_second (calculated y)) same_x,
      )

  pub settled :
      (ks k mx my : ℕ) (issued : Outcome ℕ) (a a' : WithdrawLiquidityAction)
      → a.source.amount ≡ desired k
      → a.destination.first.amount ≡ Bounds.min mx
      → a.destination.second.amount ≡ Bounds.min my
      → settle fx bp tp ks issued a ≡ ok a'
      → (total x y : ℕ) × (issued ≡ ok total)
        × IsPriced k total mx my x y
        × (k ≤ ks)
        × (0 < bp)
        × (0 < tp)
        × (a' ≡ taken x y a)
  unfolding settle Bounds.unwrap
  settled ks k mx my issued a a' ek ex ey h =
      let (l, e1, h1) = >>=-eq-ok (pool_has_liquidity bp tp) _ h in
      let (total, e2, h2) = >>=-eq-ok issued _ h1 in
      let (a1, e3, h3) = >>=-eq-ok (decide_amounts fx bp tp total a.source.amount a) _ h2 in
      let (x, y, p, same) =
        priced total k mx my a a1 ex ey
          (ap (λ b. decide_amounts fx bp tp total b a) (sym ek) ∙ e3) in
      let (base, e4, h4) =
        >>=-eq-ok (unwrapped (Bounds.unwrap a1.destination.second.amount)) _ h3 in
      let (target, e5, h5) =
        >>=-eq-ok (unwrapped (Bounds.unwrap a1.destination.first.amount)) _ h4 in
      let (n, e6, h6) = >>=-eq-ok (unwrapped (Bounds.unwrap a1.source.amount)) _ h5 in
      let (enough, h7) = ensure-eq-ok (leb n ks) _ _ h6 in
      let wanted : a1.source.amount ≡ desired k = ap (λ b. b.source.amount) same ∙ ek in
      let exact : k ≡ n = desired_amount a1.source.amount wanted e6 in
      let (some_bp, some_tp) = liquidity-positive bp tp e1 in
      (
        total,
        x,
        y,
        e2,
        p,
        rw exact (leb-le n ks enough),
        some_bp,
        some_tp,
        sym (ok_same a1 a' h7) ∙ same,
      )
