-- ===== src/Xyk/Liquidity/Withdraw.antt =====
-- pallets/pool-xyk/src/action_withdraw_liquidity.rs: the part of `prepare_and_validate` that follows
-- the balances. `ks` is what the source account has of the marker asset, `bp` and `tp` are the
-- balances of the pool, and `issued` is the call of `total_issuance` for the marker asset.
use sora2_parachain.Prelude.{ℕ, Bool, ◌||◌, some, ltb, leb, nat_eq, if◌then◌else◌}
use sora2_parachain.Common.Errors.{XykError}
use sora2_parachain.Common.Result.{ok, err, ensure, ◌>>=◌, ◌>>◌}
use sora2_parachain.Common.Fixed.{Fixnum, from_u128, add, mul, div}
use sora2_parachain.Xyk.Bounds.{Bounds, calculated, desired, is_dummy, meets_the_boundaries}
use sora2_parachain.Xyk.Bounds
use sora2_parachain.Xyk.Math.{failed, Outcome, to_balance}
use sora2_parachain.Xyk.Defs.{WithdrawLiquidityAction, min_liquidity}
use sora2_parachain.Xyk.PairSwap.Prepare.{
  client_of, or_client, unwrapped, zero_error, pool_has_liquidity,
}

unfoldable pub is_abstract_checking : WithdrawLiquidityAction → Bool
is_abstract_checking a =
    is_dummy a.destination.first.amount
    || is_dummy a.destination.second.amount
    || is_dummy a.source.amount

unfoldable pub set_accounts : ℕ → WithdrawLiquidityAction → Outcome WithdrawLiquidityAction
set_accounts source a = do
  client ← client_of source a.client_account
  ok (record a {
    client_account = some client;
    receiver_account_a = or_client a.receiver_account_a (some client);
    receiver_account_b = or_client a.receiver_account_b (some client);
  })

abbrev pub set_first : Bounds → WithdrawLiquidityAction → WithdrawLiquidityAction
set_first b a = record a {
  destination = record (a.destination) { first = record (a.destination.first) { amount = b } };
}

abbrev pub set_second : Bounds → WithdrawLiquidityAction → WithdrawLiquidityAction
set_second b a = record a {
  destination = record (a.destination) { second = record (a.destination.second) { amount = b } };
}

-- One of the two sides, with the error of an amount that is not the recommended one.
abbrev pub fit_amount :
    XykError
    → (Bounds → WithdrawLiquidityAction → WithdrawLiquidityAction)
    → ℕ
    → Bounds
    → WithdrawLiquidityAction
    → Outcome WithdrawLiquidityAction
fit_amount e put recommended (desired x) a = if nat_eq x recommended then ok a else err (failed e)
fit_amount e put recommended bounds a = do
  ensure (meets_the_boundaries bounds (calculated recommended))
      (failed XykError.calculated_value_is_not_meets_required_boundaries)
  ok (put (calculated recommended) a)

module _ (fx : Fixnum) where
  -- The minimum is added to the supply: the first provider's part of it was never issued.
  abbrev pub part_of : ℕ → ℕ → ℕ → Outcome ℕ
  part_of balance source_k total_iss = to_balance (
      div fx (mul fx (from_u128 balance) (from_u128 source_k))
        (add fx (from_u128 total_iss) (from_u128 min_liquidity)))

  module _ (bp tp : ℕ) where
    unfoldable pub decide_amounts :
        ℕ → Bounds → WithdrawLiquidityAction → Outcome WithdrawLiquidityAction
    decide_amounts total_iss (desired source_k) a = do
      ensure (ltb 0 source_k) zero_error
      recom_x ← part_of bp source_k total_iss
      recom_y ← part_of tp source_k total_iss
      a' ←
          fit_amount XykError.invalid_withdraw_liquidity_basic_asset_amount set_first recom_x
            a.destination.first.amount a
      fit_amount XykError.invalid_withdraw_liquidity_target_asset_amount set_second recom_y
          a.destination.second.amount a'
    decide_amounts total_iss _ a =
        err (failed XykError.impossible_to_decide_deposit_liquidity_amounts)

    unfoldable pub settle :
        ℕ → Outcome ℕ → WithdrawLiquidityAction → Outcome WithdrawLiquidityAction
    unfolding decide_amounts
    settle ks issued a = do
      pool_has_liquidity bp tp
      total_iss ← issued
      a' ← decide_amounts total_iss a.source.amount a
      base_amount ← unwrapped (Bounds.unwrap a'.destination.second.amount)
      target_amount ← unwrapped (Bounds.unwrap a'.destination.first.amount)
      source_amount ← unwrapped (Bounds.unwrap a'.source.amount)
      ensure (leb source_amount ks)
          (failed XykError.source_balance_of_liquidity_tokens_is_not_large_enough)
      ok a'
