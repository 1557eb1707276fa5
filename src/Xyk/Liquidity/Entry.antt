-- ===== src/Xyk/Liquidity/Entry.antt =====
-- pallets/pool-xyk/src/action_deposit_liquidity.rs: what the steps of a prepared deposit say.
use sora2_parachain.Prelude.{
  ℕ, ◌+◌, ◌-◌, ◌^◌, Bool-cases, ◌≤◌, ◌<◌, ◌≡◌, ◌≢◌, ◌∙◌, ap, sym, refl, ◌⊎◌, inl, inr, true, ◌&&◌,
  Option, some, ltb, leb, arith,
}
use sora2_parachain.Common.Errors.{XykError, DispatchError}
use sora2_parachain.Common.Result.{ok, err, ◌>>=◌, ◌>>◌, >>=-eq-ok, ensure-eq-ok}
use sora2_parachain.Common.Fixed.{Fixnum, IsFloored, FixedWrapper, ArithmeticError, div, from_u128}
use sora2_parachain.Xyk.Bounds.{
  Bounds, calculated, desired, range_from_desired_to_min, decide, to_option,
}
use sora2_parachain.Common.Primitives.{TechAccountId}
use sora2_parachain.Xyk.Bounds
use sora2_parachain.Xyk.Math.{Outcome, failed, to_balance, wrapping_sub, calc_deposit_liquidity_1}
use sora2_parachain.Xyk.Defs.{DepositLiquidityAction, min_liquidity}
use sora2_parachain.Xyk.PairSwap.Prepare.{zero_error}
use sora2_parachain.Xyk.Liquidity.Deposit.{
  settle, settle_first, settle_next, check_amounts, pool_k_of, set_first, set_second,
  set_destination, decide_for, decide_by_destination, min_liquidity_for, ranged,
}

pub settle-cases :
    (fx : Fixnum) (bp tp bs ts : ℕ) (issued : Outcome ℕ) (a a' : DepositLiquidityAction)
    → settle fx bp tp bs ts issued a ≡ ok a'
    → (bp ≡ 0) × (tp ≡ 0) × (settle_first fx bs ts a ≡ ok a')
      ⊎ (0 < bp) × (0 < tp) × (settle_next fx bp tp 0 bs ts issued a ≡ ok a')
unfolding settle
settle-cases fx bp tp bs ts issued a a' h = ground arith

-- The balances are checked against the amounts.
check_amounts-inversion :
    (bs ts pool_k minimum x y l : ℕ) (a : DepositLiquidityAction) {u : Unit {0}}
    → check_amounts bs ts pool_k minimum a ≡ ok u
    → Bounds.unwrap a.source.first.amount ≡ some x
    → Bounds.unwrap a.source.second.amount ≡ some y
    → Bounds.unwrap a.destination.amount ≡ some l
    → (x ≤ bs) × (y ≤ ts) × (minimum ≤ pool_k + l)
unfolding check_amounts
check_amounts-inversion bs ts pool_k minimum x y l a h ex ey el = ground arith

pub ok_action :
    (a b : DepositLiquidityAction) → ◌≡◌ {A = Outcome DepositLiquidityAction} (ok a) (ok b) → a ≡ b
ok_action a b h = ground arith

both_le : (a b c d : ℕ) → (leb a b && leb c d) ≡ true → (a ≤ b) × (c ≤ d)
both_le a b c d h = ground arith

-- The action with the amounts that were decided.
abbrev pub entered : Bounds → Bounds → ℕ → DepositLiquidityAction → DepositLiquidityAction
entered x y l a = record (set_destination (calculated l) (set_second y (set_first x a))) {
  min_liquidity = some min_liquidity;
}

module _ (fx : Fixnum) (client receiver : Option ℕ) (tech : TechAccountId)
    (marker asset_a asset_b : ℕ) (a_desired b_desired a_min b_min bs ts : ℕ) where
  abbrev action : DepositLiquidityAction
  action = ranged client receiver tech marker asset_a asset_b a_desired b_desired a_min b_min

  abbrev a_range : Bounds
  a_range = range_from_desired_to_min a_desired a_min

  abbrev b_range : Bounds
  b_range = range_from_desired_to_min b_desired b_min

  -- The first deposit takes the desired amounts whole.
  abbrev pub IsFirst : DepositLiquidityAction → ℕ → Type 0
  IsFirst a' k =
      (to_balance (pool_k_of fx a_desired b_desired) ≡ ok k)
      × (min_liquidity ≤ k + k)
      × (a_desired ≤ bs)
      × (b_desired ≤ ts)
      × (a' ≡ entered a_range b_range (wrapping_sub k min_liquidity) action)

  pub IsFirst-inversion :
      (a' : DepositLiquidityAction) → settle_first fx bs ts action ≡ ok a' → (k : ℕ) × IsFirst a' k
  unfolding settle_first to_option Bounds.unwrap
  IsFirst-inversion a' h =
      let (k, e1, h1) = >>=-eq-ok (to_balance (pool_k_of fx a_desired b_desired)) _ h in
      let a1 = set_destination (calculated k) action in
      let (u, e2, h2) = >>=-eq-ok (check_amounts bs ts k min_liquidity a1) _ h1 in
      let (enough_a, enough_b, enough_k) =
        check_amounts-inversion bs ts k min_liquidity a_desired b_desired k a1 e2 refl refl refl in
      (k, (e1, enough_k, enough_a, enough_b, sym (ok_action _ a' h2)))

  module _ (bp tp : ℕ) where
    -- A later deposit takes the amounts that fit the reserves.
    abbrev pub IsNext : Outcome ℕ → DepositLiquidityAction → ℕ → ℕ → ℕ → ℕ → Type 0
    IsNext issued a' total x y l =
        (issued ≡ ok total)
        × (a_min ≤ a_desired)
        × (b_min ≤ b_desired)
        × (calc_deposit_liquidity_1 fx total bp tp a_desired b_desired a_min b_min ≡ ok (x, y, l))
        × (x ≤ bs)
        × (y ≤ ts)
        × (a' ≡ entered (calculated x) (calculated y) l action)

    abbrev chosen : ℕ × ℕ × ℕ → DepositLiquidityAction
    chosen (x, y, l) =
        set_destination (calculated l) (set_second (calculated y) (set_first (calculated x) action))

    ranges-inversion :
        (issued : Outcome ℕ) (a1 : DepositLiquidityAction)
        → decide_for fx bp tp 0 issued a_range b_range decide action ≡ ok a1
        → (total x y l : ℕ) × (issued ≡ ok total)
          × (a_min ≤ a_desired)
          × (b_min ≤ b_desired)
          × (calc_deposit_liquidity_1 fx total bp tp a_desired b_desired a_min b_min ≡ ok (x, y, l))
          × (a1 ≡ chosen (x, y, l))
    ranges-inversion issued a1 h =
        let (both, h1) = ensure-eq-ok (leb a_min a_desired && leb b_min b_desired) _ _ h in
        let (total, e2, h2) = >>=-eq-ok issued _ h1 in
        let ((x, y, l), e3, h3) =
          >>=-eq-ok (calc_deposit_liquidity_1 fx total bp tp a_desired b_desired a_min b_min) _
            h2 in
        let (low_a, low_b) = both_le a_min a_desired b_min b_desired both in
        (total, x, y, l, e2, low_a, low_b, e3, sym (ok_action _ a1 h3))

    -- The end of `settle_next`.
    abbrev finish : ℕ → DepositLiquidityAction → Outcome DepositLiquidityAction
    finish k a = min_liquidity_for a.min_liquidity >>= λ minimum.
        check_amounts bs ts k minimum a >> ok (record a { min_liquidity = some minimum })

    pub IsNext-inversion :
        (issued : Outcome ℕ) (a' : DepositLiquidityAction)
        → settle_next fx bp tp 0 bs ts issued action ≡ ok a'
        → (total x y l : ℕ) × IsNext issued a' total x y l
    unfolding settle_next Bounds.unwrap
    IsNext-inversion issued a' h =
        let (k, e1, h1) = >>=-eq-ok (to_balance (pool_k_of fx bp tp)) _ h in
        let (a1, e2, h2) =
          >>=-eq-ok (decide_for fx bp tp 0 issued a_range b_range decide action) (finish k) h1 in
        let (total, x, y, l, e3, low_a, low_b, e4, same) = ranges-inversion issued a1 e2 in
        let a2 = chosen (x, y, l) in
        let (u, e5, h5) =
          >>=-eq-ok (check_amounts bs ts k min_liquidity a2)
            (λ u. ok (record a2 { min_liquidity = some min_liquidity }))
            (ap (finish k) (sym same) ∙ h2) in
        let (enough_a, enough_b, enough_k) =
          check_amounts-inversion bs ts k min_liquidity x y l a2 e5 refl refl refl in
        (total, x, y, l, (e3, low_a, low_b, e4, enough_a, enough_b, sym (ok_action _ a' h5)))

  -- A first deposit whose root `k` of the product is from 500 to 999 passes the check of the minimal
  -- liquidity, and the subtraction of 1000 wraps around: it would mint `2 ^ 128 + k - 1000`.
  pub first-wraps :
      (k : ℕ)
      → to_balance (pool_k_of fx a_desired b_desired) ≡ ok k
      → 500 ≤ k
      → k < 1000
      → a_desired ≤ bs
      → b_desired ≤ ts
      → settle_first fx bs ts action ≡ ok (entered a_range b_range (2 ^ 128 + k - 1000) action)
  unfolding settle_first check_amounts to_option Bounds.unwrap
  first-wraps k e low high enough_a enough_b = rw e (ground arith)

module _ (fx : Fixnum) (laws : IsFloored fx) where
  no_piece : (w : FixedWrapper) → (e : ArithmeticError) × (div fx w (from_u128 0) ≡ err e)
  no_piece (ok v) = laws.rdiv_zero v
  no_piece (err e) = (e, refl)

  blocked :
      (w piece : FixedWrapper) {e : ArithmeticError}
      → piece ≡ err e
      → to_balance (div fx w piece) ≡ err (failed XykError.fixed_wrapper_calculation_failed)
  blocked (ok v) piece h = rw h refl
  blocked (err e) piece h = refl

  by_destination-fails :
      (bp tp k : ℕ) (a : DepositLiquidityAction)
      → (e : DispatchError) × (decide_by_destination fx bp tp 0 k a ≡ err e)
  unfolding decide_by_destination
  by_destination-fails bp tp k a =
      let piece = div fx (pool_k_of fx bp tp) (from_u128 0) in
      let (x, none_left) = no_piece (pool_k_of fx bp tp) in
      let stopped = blocked (from_u128 bp) piece none_left in
      elim (Bool-cases (ltb 0 k)) [
        | inl h ↦ (failed XykError.fixed_wrapper_calculation_failed, rw (h, stopped) refl)
        | inr h ↦ (zero_error, rw h refl)
      ]

  next-refuses :
      (bp tp bs ts k : ℕ) (issued : Outcome ℕ) (a a' : DepositLiquidityAction)
      → a.destination.amount ≡ desired k
      → settle_next fx bp tp 0 bs ts issued a ≢ ok a'
  unfolding settle_next
  next-refuses bp tp bs ts k issued a a' wants h =
      let ox = a.source.first.amount in
      let oy = a.source.second.amount in
      let (pool_k, e1, h1) = >>=-eq-ok (to_balance (pool_k_of fx bp tp)) _ h in
      let (a1, e2, h2) =
        >>=-eq-ok (decide_for fx bp tp 0 issued ox oy a.destination.amount a) _ h1 in
      let (e, fails) = by_destination-fails bp tp k a in
      let both : err e ≡ ok a1 =
        sym fails ∙ ap (λ b. decide_for fx bp tp 0 issued ox oy b a) (sym wants) ∙ e2 in
      ground arith

  -- What a deposit for a desired amount of liquidity is decided for: an empty pool.
  pub settle-desired :
      (bp tp bs ts k : ℕ) (issued : Outcome ℕ) (a a' : DepositLiquidityAction)
      → a.destination.amount ≡ desired k
      → settle fx bp tp bs ts issued a ≡ ok a'
      → (bp ≡ 0) × (tp ≡ 0)
  settle-desired bp tp bs ts k issued a a' wants h =
      elim (settle-cases fx bp tp bs ts issued a a' h) [
        | inl (no_b, no_t, e) ↦ (no_b, no_t)
        | inr (some_b, some_t, e) ↦ absurd (next-refuses bp tp bs ts k issued a a' wants e)
      ]
