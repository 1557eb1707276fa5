-- ===== src/Xyk/Liquidity/Deposit.antt =====
-- pallets/pool-xyk/src/action_deposit_liquidity.rs: the part of `prepare_and_validate` that follows
-- the balances. `bs` and `ts` are the balances of the source account, `bp` and `tp` those of the pool,
-- and `issued` is the call of `total_issuance` for the marker asset.
use sora2_parachain.Prelude.{
  ℕ, ◌-◌, Bool, true, false, not, ◌&&◌, ◌||◌, Option, none, some, ltb, leb, nat_eq, if◌then◌else◌,
}
use sora2_parachain.Common.Errors.{XykError}
use sora2_parachain.Common.Result.{ok, err, ok_or, ensure, ◌>>=◌, ◌>>◌}
use sora2_parachain.Common.Fixed.{Fixnum, FixedWrapper, from_u128, div, multiply_and_sqrt}
use sora2_parachain.Common.Primitives.{TechAccountId}
use sora2_parachain.Xyk.Bounds.{
  Bounds, calculated, desired, range_from_desired_to_min, decide, dummy, is_dummy, to_option,
  meets_the_boundaries,
}
use sora2_parachain.Xyk.Bounds
use sora2_parachain.Xyk.Math.{failed, Outcome, to_balance, wrapping_sub, calc_deposit_liquidity_1}
use sora2_parachain.Xyk.Defs.{DepositLiquidityAction, min_liquidity}
use sora2_parachain.Xyk.PairSwap.Prepare.{client_of, or_client, unwrapped, zero_error}

unfoldable pub is_abstract_checking : DepositLiquidityAction → Bool
is_abstract_checking a =
    is_dummy a.source.first.amount
    || is_dummy a.source.second.amount
    || is_dummy a.destination.amount

unfoldable pub set_accounts : ℕ → DepositLiquidityAction → Outcome DepositLiquidityAction
set_accounts source a = do
  client ← client_of source a.client_account
  ok (record a {
    client_account = some client;
    receiver_account = or_client a.receiver_account (some client);
  })

abbrev pub set_first : Bounds → DepositLiquidityAction → DepositLiquidityAction
set_first b a = record a {
  source = record (a.source) { first = record (a.source.first) { amount = b } };
}

abbrev pub set_second : Bounds → DepositLiquidityAction → DepositLiquidityAction
set_second b a = record a {
  source = record (a.source) { second = record (a.source.second) { amount = b } };
}

abbrev pub set_destination : Bounds → DepositLiquidityAction → DepositLiquidityAction
set_destination b a = record a { destination = record (a.destination) { amount = b } }

-- The action of a deposit between desired and minimal amounts.
abbrev pub ranged :
    Option ℕ → Option ℕ → TechAccountId → ℕ → ℕ → ℕ → ℕ → ℕ → ℕ → ℕ → DepositLiquidityAction
ranged client receiver tech marker asset_a asset_b a_desired b_desired a_min b_min = record {
  client_account = client;
  receiver_account = receiver;
  pool_account = tech;
  source = record {
    first = record { asset = asset_a; amount = range_from_desired_to_min a_desired a_min };
    second = record { asset = asset_b; amount = range_from_desired_to_min b_desired b_min };
  };
  destination = record { asset = marker; amount = decide };
  min_liquidity = none;
}

-- The recommended minimum, unless the action has one that is not smaller.
abbrev pub min_liquidity_for : Option ℕ → Outcome ℕ
min_liquidity_for none = ok min_liquidity
min_liquidity_for (some m) =
    if ltb m min_liquidity
    then err (failed XykError.minimum_liquidity_is_smaller_than_recommended)
    else ok m

-- The checks of the liquidity and of the balances of the source account.
unfoldable pub check_amounts : ℕ → ℕ → ℕ → ℕ → DepositLiquidityAction → Outcome (Unit {0})
check_amounts bs ts pool_k minimum a = do
  base_amount ← unwrapped (Bounds.unwrap a.source.first.amount)
  target_amount ← unwrapped (Bounds.unwrap a.source.second.amount)
  destination_amount ← unwrapped (Bounds.unwrap a.destination.amount)
  ensure (not (ltb pool_k minimum && ltb destination_amount (minimum - pool_k)))
      (failed XykError.destination_amount_of_liquidity_is_not_large_enough)
  ensure (leb base_amount bs) (failed XykError.source_base_amount_is_not_large_enough)
  ensure (leb target_amount ts) (failed XykError.target_base_amount_is_not_large_enough)

-- One of the two sides of a deposit for a desired amount of liquidity, with the error of an amount
-- that is not the recommended one.
abbrev pub fit_amount :
    Outcome ℕ
    → XykError
    → (Bounds → DepositLiquidityAction → DepositLiquidityAction)
    → ℕ
    → Bounds
    → DepositLiquidityAction
    → Outcome DepositLiquidityAction
fit_amount value e put recommended (desired x) a =
    if nat_eq x recommended then ok a else err (failed e)
fit_amount value e put recommended bounds a = do
  amount ← value
  ensure (meets_the_boundaries bounds (calculated amount))
      (failed XykError.calculated_value_is_not_meets_required_boundaries)
  ok (put (calculated amount) a)

module _ (fx : Fixnum) where
  abbrev pub pool_k_of : ℕ → ℕ → FixedWrapper
  pool_k_of x y = multiply_and_sqrt fx (from_u128 x) (from_u128 y)

  -- The first deposit: the amount of liquidity is the root of the product of the amounts.
  abbrev pub first_destination : ℕ → DepositLiquidityAction → Outcome DepositLiquidityAction
  first_destination pool_k a = elim (a.destination.amount) [
    | desired k ↦
        ensure (nat_eq k pool_k) (failed XykError.invalid_deposit_liquidity_destination_amount)
        >> ok a
    | _ ↦ ok (set_destination (calculated pool_k) a)
  ]

  -- The subtraction at the end wraps around at 128 bits, as it does in the release build.
  unfoldable pub settle_first : ℕ → ℕ → DepositLiquidityAction → Outcome DepositLiquidityAction
  unfolding check_amounts
  settle_first bs ts a = do
    init_x ← ok_or (to_option a.source.first.amount) (failed XykError.initial_ratio_must_be_defined)
    init_y ←
        ok_or (to_option a.source.second.amount) (failed XykError.initial_ratio_must_be_defined)
    pool_k ← to_balance (pool_k_of init_x init_y)
    a' ← first_destination pool_k a
    minimum ← min_liquidity_for a'.min_liquidity
    check_amounts bs ts pool_k minimum a'
    amount ← unwrapped (Bounds.unwrap a'.destination.amount)
    ok (record (set_destination (calculated (wrapping_sub amount minimum)) a') {
      min_liquidity = some minimum;
    })

  module _ (bp tp : ℕ) where
    abbrev pub pool_is_empty : Bool
    pool_is_empty = nat_eq bp 0 && nat_eq tp 0

    -- `init_x`, which is set at an empty pool only.
    abbrev pub initial_x : DepositLiquidityAction → Outcome ℕ
    initial_x a =
        if pool_is_empty
        then ok_or (to_option a.source.first.amount) (failed XykError.initial_ratio_must_be_defined)
        else ok 0

    -- For a desired amount of liquidity the source divides by `init_x`.
    unfoldable pub decide_by_destination :
        ℕ → ℕ → DepositLiquidityAction → Outcome DepositLiquidityAction
    decide_by_destination init_x destination_k a = do
      ensure (ltb 0 destination_k) zero_error
      let piece = div fx (pool_k_of bp tp) (from_u128 init_x)
      recom_x ← to_balance (div fx (from_u128 bp) piece)
      recom_y ← to_balance (div fx (from_u128 tp) piece)
      a' ←
          fit_amount (to_balance (div fx (from_u128 bp) piece))
            XykError.invalid_deposit_liquidity_basic_asset_amount set_first recom_x
            a.source.first.amount a
      fit_amount (to_balance (div fx (from_u128 tp) piece))
          XykError.invalid_deposit_liquidity_target_asset_amount set_second recom_y
          a.source.second.amount a'

    abbrev pub set_marker : ℕ → Bounds → DepositLiquidityAction → Outcome DepositLiquidityAction
    set_marker marker (desired k) a = err (failed XykError.this_case_is_not_supported)
    set_marker marker bounds a = ok (set_destination (calculated marker) a)

    abbrev pub decide_by_ranges :
        Outcome ℕ → ℕ → ℕ → ℕ → ℕ → DepositLiquidityAction → Outcome DepositLiquidityAction
    decide_by_ranges issued xdes xmin ydes ymin a = do
      ensure (leb xmin xdes && leb ymin ydes) (failed XykError.range_values_is_invalid)
      total_iss ← issued
      (x, y, marker) ← calc_deposit_liquidity_1 fx total_iss bp tp xdes ydes xmin ymin
      set_marker marker a.destination.amount
          (set_second (calculated y) (set_first (calculated x) a))

    abbrev pub decide_for :
        ℕ
        → Outcome ℕ
        → Bounds
        → Bounds
        → Bounds
        → DepositLiquidityAction
        → Outcome DepositLiquidityAction
    decide_for init_x issued ox oy (desired k) a = decide_by_destination init_x k a
    decide_for init_x issued (range_from_desired_to_min xdes xmin)
          (range_from_desired_to_min ydes ymin) bounds a =
        decide_by_ranges issued xdes xmin ydes ymin a
    decide_for init_x issued ox oy bounds a =
        err (failed XykError.impossible_to_decide_deposit_liquidity_amounts)

    -- A deposit into a pool that has both assets.
    unfoldable pub settle_next :
        ℕ → ℕ → ℕ → Outcome ℕ → DepositLiquidityAction → Outcome DepositLiquidityAction
    unfolding check_amounts decide_by_destination
    settle_next init_x bs ts issued a = do
      pool_k ← to_balance (pool_k_of bp tp)
      a' ←
          decide_for init_x issued a.source.first.amount a.source.second.amount a.destination.amount
            a
      minimum ← min_liquidity_for a'.min_liquidity
      check_amounts bs ts pool_k minimum a'
      ok (record a' { min_liquidity = some minimum })

    abbrev pub ensure_pool_is_valid : Outcome (Unit {0})
    ensure_pool_is_valid =
        ensure (pool_is_empty || not (nat_eq bp 0 || nat_eq tp 0)) (failed XykError.pool_is_invalid)

    unfoldable pub settle :
        ℕ → ℕ → Outcome ℕ → DepositLiquidityAction → Outcome DepositLiquidityAction
    unfolding settle_first settle_next
    settle bs ts issued a = do
      ensure_pool_is_valid
      init_x ← initial_x a
      if pool_is_empty then settle_first bs ts a else settle_next init_x bs ts issued a

    -- Abstract checking fills in the minimum only; at an empty pool it needs an amount of liquidity.
    abbrev pub abstract_k : Outcome (Unit {0})
    abstract_k = if pool_is_empty then ok tt else (to_balance (pool_k_of bp tp) >>= λ pool_k. ok tt)

    abbrev pub less_minimum : Bool → ℕ → DepositLiquidityAction → Outcome DepositLiquidityAction
    less_minimum false minimum a = ok a
    less_minimum true minimum a = unwrapped (Bounds.unwrap a.destination.amount) >>= λ amount.
        ok (set_destination (calculated (wrapping_sub amount minimum)) a)

    unfoldable pub settle_abstract : DepositLiquidityAction → Outcome DepositLiquidityAction
    settle_abstract a = do
      ensure_pool_is_valid
      abstract_k
      minimum ← min_liquidity_for a.min_liquidity
      less_minimum pool_is_empty minimum (record a { min_liquidity = some minimum })
