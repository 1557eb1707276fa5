-- ===== src/LiquidityProxy/GenericSplit.antt =====
-- pallets/liquidity-proxy/src/lib.rs: the split of a trade between any number of sources, by samples
-- of their quotes.
pub mod Portions
use sora2_parachain.Prelude.{
  ℕ, zero, suc, Bool, true, false, ◌&&◌, none, some, List, [], ◌∷◌, map, get_or, if◌then◌else◌, ℤ,
  pos, negsuc, ltb_ℤ,
}
use sora2_parachain.Common.Errors.{DispatchError, LiquidityProxyError, panicked}
use sora2_parachain.Common.Result.{ok, err, ensure, ◌>>=◌, ◌>>◌}
use sora2_parachain.Common.Fixed.{Checked, FixedWrapper, max_bits, add, to_u128, try_into_balance}
use sora2_parachain.Common.SwapAmounts.{
  SwapAmount, with_desired_input, with_desired_output, SwapOutcome, outcome, outcome_to_fixed,
  saturated_to_fixed, balance_to_bits, bits_to_balance, both_some,
}
use sora2_parachain.Common.Utils.{linspace, right_endpoint}
use sora2_parachain.Common.Sources.{SourceId}
use sora2_parachain.LiquidityProxy.Algo.{find_distribution}
use sora2_parachain.LiquidityProxy.Config.{
  Env, AggregatedSwapOutcome, Fallible, failed, calculated, converted, unwrapped,
}

abbrev pub Samples : Type 0
Samples = List (SwapOutcome ℤ)

abbrev pub zip : {A B : Type 0} → List A → List B → List (A × B)
zip [] bs = []
zip (a ∷ as_) [] = []
zip (a ∷ as_) (b ∷ bs) = (a, b) ∷ zip as_ bs

-- A panic aborts; any other error is replaced.
abbrev pub or_worst : SwapOutcome ℤ → DispatchError → Fallible (SwapOutcome ℤ)
or_worst worst panicked = err panicked
or_worst worst _ = ok worst

abbrev pub sample_or : SwapOutcome ℤ → Fallible (SwapOutcome ℤ) → Fallible (SwapOutcome ℤ)
sample_or worst (ok o) = ok o
sample_or worst (err e) = or_worst worst e

-- `*sample_fees[i].get((idx - 1) as usize).unwrap_or(&Fixed::ZERO)`: for an index below one the
-- cast is out of bounds.
abbrev pub fee_at : List ℤ → ℤ → ℤ
fee_at fees (pos zero) = pos 0
fee_at fees (pos (suc n)) = get_or fees n (pos 0)
fee_at fees (negsuc n) = pos 0

abbrev pub is_inversed : SwapAmount ℕ → Bool
is_inversed (with_desired_input a m) = false
is_inversed (with_desired_output a m) = true

module _ {S P : Type 0} (env : Env S P) where
  open env use {fx, registry, num_samples}
  open registry use {source}

  -- The quote of one sample, with the outcome that stands for a failed one.
  abbrev pub sample_quote :
      SourceId
      → ℕ
      → ℕ
      → (ℕ → ℕ → SwapAmount ℕ)
      → SwapOutcome ℤ
      → ℤ × ℤ
      → S
      → Fallible (SwapOutcome ℤ)
  sample_quote id input output asked worst (x, y) s = sample_or worst (
      converted (both_some asked (bits_to_balance x) (bits_to_balance y)) >>= λ a.
      source.quote id input output a s >>= λ o. converted (outcome_to_fixed o))

  unfoldable pub sample_quotes :
      SourceId
      → ℕ
      → ℕ
      → (ℕ → ℕ → SwapAmount ℕ)
      → SwapOutcome ℤ
      → List (ℤ × ℤ)
      → S
      → Fallible Samples
  unfolding outcome_to_fixed
  sample_quotes id input output asked worst [] s = ok []
  sample_quotes id input output asked worst (p ∷ ps) s =
      sample_quote id input output asked worst p s >>= λ o.
      sample_quotes id input output asked worst ps s >>= λ os. ok (o ∷ os)

  -- `num_samples` even parts of an amount.
  abbrev pub even_parts : ℤ → Fallible (List ℤ)
  even_parts a = unwrapped (linspace fx (pos 0) a num_samples right_endpoint)

  abbrev pub sample_range :
      SourceId → ℕ → ℕ → (ℕ → ℕ → SwapAmount ℕ) → SwapOutcome ℤ → ℤ → ℤ → S → Fallible Samples
  sample_range id input output asked worst a limit s = do
    xs ← even_parts a
    ys ← even_parts limit
    sample_quotes id input output asked worst (zip xs ys) s

  unfoldable pub sample_liquidity_source : SourceId → ℕ → ℕ → SwapAmount ℤ → S → Fallible Samples
  unfolding sample_quotes linspace
  sample_liquidity_source id input output (with_desired_input a min_out) s =
      sample_range id input output SwapAmount.with_desired_input (outcome (pos 0) (pos 0)) a min_out
        s
  sample_liquidity_source id input output (with_desired_output a max_in) s =
      sample_range id input output SwapAmount.with_desired_output (outcome (pos max_bits) (pos 0)) a
        max_in s

  unfoldable pub sample_sources : List SourceId → ℕ → ℕ → SwapAmount ℤ → S → Fallible (List Samples)
  unfolding sample_liquidity_source
  sample_sources [] input output a s = ok []
  sample_sources (id ∷ ids) input output a s =
      sample_liquidity_source id input output a s >>= λ row.
      sample_sources ids input output a s >>= λ rows. ok (row ∷ rows)

  -- The fold over the distribution; an index past the rows of fees panics.
  abbrev pub add_fee : Checked ℤ → List (List ℤ) → FixedWrapper → Fallible FixedWrapper
  add_fee (err e) rows acc = ok acc
  add_fee (ok index) [] acc = err panicked
  add_fee (ok index) (fees ∷ rows) acc =
      ok (add fx acc (ok (fee_at fees (fx.rounding_to_i64 index))))

  abbrev pub tail : {A : Type 0} → List A → List A
  tail [] = []
  tail (x ∷ xs) = xs

  unfoldable pub total_fees : List ℤ → List (List ℤ) → FixedWrapper → Fallible FixedWrapper
  total_fees [] rows acc = ok acc
  total_fees (share ∷ shares) rows acc =
      add_fee (fx.cmul share num_samples) rows acc >>= λ next. total_fees shares (tail rows) next

  abbrev pub aggregated :
      List SourceId → List (List ℤ) → List ℤ × ℤ → Fallible AggregatedSwapOutcome
  aggregated ids fees (shares, best) = do
    ensure (ltb_ℤ (pos 0) best && ltb_ℤ best (pos max_bits))
        (failed LiquidityProxyError.aggregation_error)
    whole ← converted (balance_to_bits num_samples)
    total ← total_fees shares fees (ok (pos 0))
    fee ← calculated total
    best_amount ← calculated (to_u128 best)
    fee_amount ← calculated (to_u128 fee)
    ok (record { distribution = zip ids shares; amount = best_amount; fee = fee_amount })

  unfoldable pub generic_split :
      List SourceId → ℕ → ℕ → SwapAmount ℕ → S → Fallible AggregatedSwapOutcome
  unfolding sample_sources find_distribution total_fees saturated_to_fixed
  generic_split ids input output asked s = do
    rows ← sample_sources ids input output (saturated_to_fixed asked) s
    found ← unwrapped (find_distribution fx (is_inversed asked) (map (map (λ o. o.amount)) rows))
    aggregated ids (map (map (λ o. o.fee)) rows) found
