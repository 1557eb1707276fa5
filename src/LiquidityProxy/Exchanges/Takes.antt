-- ===== src/LiquidityProxy/Exchanges/Takes.antt =====
-- pallets/liquidity-proxy/src/lib.rs: an exchange takes no more from the sender than was allowed.
use sora2_parachain.Prelude.{
  ℕ, ◌+◌, ◌-◌, ◌*◌, ◌/◌, ◌≤◌, ◌≡◌, ◌≢◌, ◌∙◌, subst, sym, ap, some, List, [], ◌∷◌, map, arith, ℤ,
  pos, negsuc, ltb_ℤ, Bool-cases, inl, inr,
}
use native.Mathlib.Nat.{add-mul}
use sora2_parachain.Common.Result.{ok}
use sora2_parachain.Common.Effects.{pure, bind-eq-ok, reads-eq-ok, with_transaction-eq-ok}
use sora2_parachain.Common.Fixed.{IsFloored, one, try_into_balance}
use sora2_parachain.Common.SwapAmounts.{
  SwapAmount, map_amount, with_desired_input, with_desired_output, SwapOutcome, times, try_to_fixed,
  try_to_balance,
}
use sora2_parachain.Common.Sources.{LiquiditySource, SourceId, SourceFilter}
use sora2_parachain.LiquidityProxy.Config.{
  Env, AggregatedSwapOutcome, calculated, unwrapped, converted, unwrapped-inversion,
  converted-inversion,
}
use sora2_parachain.LiquidityProxy.Shares.{WithinBudget}
use sora2_parachain.LiquidityProxy.Quotes.{quote_single}
use sora2_parachain.LiquidityProxy.Quotes.Portions.{quote_single-IsPartial}
use sora2_parachain.LiquidityProxy.Exchanges.{
  exchange_part, exchange_parts, sum_outcomes, exchange_single, exchange_chain,
}

-- What the caller allows to be taken: the desired input, or the largest input.
abbrev pub limit_in : SwapAmount ℕ → ℕ
limit_in (with_desired_input a m) = a
limit_in (with_desired_output a m) = m

-- What an exchange with a source promises about the assets of `who`, who is not an account of a
-- source: it takes from its sender at most what it is allowed to, and nothing of another asset.
pub record TakesWithin {S : Type 0} (source : LiquiditySource SourceId S) (who : ℕ)
    (balance : ℕ → S → ℕ) : Type 0 where
  pub takes :
      (receiver : ℕ) (id : SourceId) (input output : ℕ) (asked : SwapAmount ℕ) (s : S)
      {o : SwapOutcome ℕ} {s' : S}
      → source.exchange who receiver id input output asked s ≡ (ok o, s')
      → balance input s ≤ balance input s' + limit_in asked
  pub spares :
      (sender receiver : ℕ) (id : SourceId) (input output asset : ℕ) (asked : SwapAmount ℕ) (s : S)
      {o : SwapOutcome ℕ} {s' : S}
      → asset ≢ input
      → source.exchange sender receiver id input output asked s ≡ (ok o, s')
      → balance asset s ≤ balance asset s'

floors_add : (b p l : ℕ) → p ≤ b → p * l / one + (b - p) * l / one ≤ b * l / one
floors_add b p l h =
    let whole : (b - p + p) * l ≡ (b - p) * l + p * l = add-mul (b - p) p l in
    let same : b - p + p ≡ b = omega arith in
    let total : b * l ≡ (b - p) * l + p * l = ap (λ n. n * l) (sym same) ∙ whole in omega arith

bits_of :
    (asked : SwapAmount ℕ) {amounts : SwapAmount ℤ}
    → try_to_fixed asked ≡ some amounts
    → map_amount pos asked ≡ amounts
unfolding try_to_fixed
bits_of (with_desired_input a m) h = ground arith
bits_of (with_desired_output a m) h = ground arith

balances_of :
    (scaled : SwapAmount ℤ) {part : SwapAmount ℕ}
    → try_to_balance scaled ≡ some part
    → map_amount pos part ≡ scaled
unfolding try_to_balance
balances_of (with_desired_input (pos a) (pos m)) h = ground arith
balances_of (with_desired_input (pos a) (negsuc m)) h = absurd (ground arith)
balances_of (with_desired_input (negsuc a) m) h = absurd (ground arith)
balances_of (with_desired_output (pos a) (pos m)) h = ground arith
balances_of (with_desired_output (pos a) (negsuc m)) h = absurd (ground arith)
balances_of (with_desired_output (negsuc a) m) h = absurd (ground arith)

module _ {S P : Type 0} (env : Env S P) (laws : IsFloored env.fx) where
  open env use {fx, registry}
  open registry use {source}

  scaled_limit :
      (asked part : SwapAmount ℕ) (p : ℕ)
      → times fx (map_amount pos asked) (pos p) ≡ some (map_amount pos part)
      → limit_in part ≡ p * limit_in asked / one
  unfolding times
  scaled_limit (with_desired_input a m) (with_desired_input c n) p h =
      ground (arith, laws.rmul_lem p a, laws.rmul_lem p m)
  scaled_limit (with_desired_input a m) (with_desired_output c n) p h =
      absurd (ground (arith, laws.rmul_lem p a, laws.rmul_lem p m))
  scaled_limit (with_desired_output a m) (with_desired_input c n) p h =
      absurd (ground (arith, laws.rmul_lem p a, laws.rmul_lem p m))
  scaled_limit (with_desired_output a m) (with_desired_output c n) p h =
      ground (arith, laws.rmul_lem p a, laws.rmul_lem p m)

  -- The limit of one part.
  limit_in-part :
      (asked part : SwapAmount ℕ) (amounts scaled : SwapAmount ℤ) (p : ℕ)
      → try_to_fixed asked ≡ some amounts
      → times fx amounts (pos p) ≡ some scaled
      → try_to_balance scaled ≡ some part
      → limit_in part ≡ p * limit_in asked / one
  limit_in-part asked part amounts scaled p e1 e2 e3 =
      scaled_limit asked part p (
        ap (λ x. times fx x (pos p)) (bits_of asked e1)
        ∙ e2
        ∙ ap some (sym (balances_of scaled e3)))

  module _ (who : ℕ) (balance : ℕ → S → ℕ) (promise : TakesWithin source who balance) where
    exchange_part-takes :
        (receiver input output p : ℕ) (asked : SwapAmount ℕ) (amounts : SwapAmount ℤ)
        (id : SourceId) (s s' : S) (o : SwapOutcome ℕ)
        → try_to_fixed asked ≡ some amounts
        → exchange_part env who receiver input output amounts id (pos p) s ≡ (ok o, s')
        → balance input s ≤ balance input s' + p * limit_in asked / one
    exchange_part-takes receiver input output p asked amounts id s s' o bits h =
        let (scaled, e1, h1) = reads-eq-ok (λ s. unwrapped (times fx amounts (pos p))) _ s h in
        let (part, e2, h2) = reads-eq-ok (λ s. converted (try_to_balance scaled)) _ s h1 in
        let limit =
          limit_in-part asked part amounts scaled p bits
            (unwrapped-inversion (times fx amounts (pos p)) e1)
            (converted-inversion (try_to_balance scaled) e2) in
        let taken = promise.takes receiver id input output part s h2 in omega arith

    exchange_parts-takes :
        (receiver input output : ℕ) (asked : SwapAmount ℕ) (amounts : SwapAmount ℤ) (b : ℕ)
        (d : List (SourceId × ℤ)) (s s' : S) (os : List (SwapOutcome ℕ))
        → try_to_fixed asked ≡ some amounts
        → WithinBudget b (map (λ e. e.1) d)
        → exchange_parts env who receiver input output amounts d s ≡ (ok os, s')
        → balance input s ≤ balance input s' + b * limit_in asked / one
    unfolding exchange_parts
    exchange_parts-takes receiver input output asked amounts b [] s s' os bits w h =
        let same : s ≡ s' = ap (λ r. r.1) h in
        subst (λ t. balance input s ≤ balance input t + b * limit_in asked / one) same (omega arith)
    exchange_parts-takes receiver input output asked amounts b ((id, share) ∷ parts) s s' os bits
          (p, e, le, w) h =
        let ih = exchange_parts-takes receiver input output asked amounts (b - p) parts in
        let total = floors_add b p (limit_in asked) le in
        elim (Bool-cases (ltb_ℤ (pos 0) share)) [
          | inr none_left ↦ let later = ih s s' os bits w (rw none_left at h) in omega arith
          | inl some_left ↦
              let (o, s1, e1, h1) =
                bind-eq-ok (exchange_part env who receiver input output amounts id share) _ s
                  (rw some_left at h) in
              let (rest, s2, e2, h2) =
                bind-eq-ok (exchange_parts env who receiver input output amounts parts)
                  (λ os. pure (o ∷ os)) s1 h1 in
              let same : s2 ≡ s' = ap (λ r. r.1) h2 in
              let first =
                exchange_part-takes receiver input output p asked amounts id s s1 o bits
                  (rw e at e1) in
              let later = ih s1 s2 rest bits w e2 in
              subst (λ t. balance input s ≤ balance input t + b * limit_in asked / one) same
                (omega arith)
        ]

    exchange_parts-spares :
        (sender receiver input output asset : ℕ) (amounts : SwapAmount ℤ) (d : List (SourceId × ℤ))
        (s s' : S) (os : List (SwapOutcome ℕ))
        → asset ≢ input
        → exchange_parts env sender receiver input output amounts d s ≡ (ok os, s')
        → balance asset s ≤ balance asset s'
    unfolding exchange_parts
    exchange_parts-spares sender receiver input output asset amounts [] s s' os differ h =
        let same : s ≡ s' = ap (λ r. r.1) h in
        subst (λ t. balance asset s ≤ balance asset t) same (omega arith)
    exchange_parts-spares sender receiver input output asset amounts ((id, share) ∷ parts) s s' os
          differ h =
        let ih = exchange_parts-spares sender receiver input output asset amounts parts in
        elim (Bool-cases (ltb_ℤ (pos 0) share)) [
          | inr none_left ↦ ih s s' os differ (rw none_left at h)
          | inl some_left ↦
              let (o, s1, e1, h1) =
                bind-eq-ok (exchange_part env sender receiver input output amounts id share) _ s
                  (rw some_left at h) in
              let (rest, s2, e2, h2) =
                bind-eq-ok (exchange_parts env sender receiver input output amounts parts)
                  (λ os. pure (o ∷ os)) s1 h1 in
              let same : s2 ≡ s' = ap (λ r. r.1) h2 in
              let (scaled, e3, h3) = reads-eq-ok (λ s. unwrapped (times fx amounts share)) _ s e1 in
              let (part, e4, h4) = reads-eq-ok (λ s. converted (try_to_balance scaled)) _ s h3 in
              let first = promise.spares sender receiver id input output asset part s differ h4 in
              let later = ih s1 s2 rest differ e2 in
              subst (λ t. balance asset s ≤ balance asset t) same (omega arith)
        ]

    -- The storage after a successful exchange of one pair is that after its parts.
    single-parts :
        (sender receiver input output : ℕ) (asked : SwapAmount ℕ) (filter : SourceFilter) (s s' : S)
        (o : SwapOutcome ℕ)
        → exchange_single env sender receiver input output asked filter s ≡ (ok o, s')
        → (amounts : SwapAmount ℤ) × (quoted : AggregatedSwapOutcome) × (os : List (SwapOutcome ℕ))
          × (try_to_fixed asked ≡ some amounts)
          × (quote_single env input output asked filter s ≡ ok quoted)
          × (exchange_parts env sender receiver input output amounts quoted.distribution s
              ≡ (ok os, s'))
    unfolding exchange_single
    single-parts sender receiver input output asked filter s s' o h =
        let (amounts, e1, h1) =
          reads-eq-ok (λ s. converted (try_to_fixed asked)) _ s (with_transaction-eq-ok _ s h) in
        let (quoted, e2, h2) = reads-eq-ok (quote_single env input output asked filter) _ s h1 in
        let (os, s1, e3, h3) =
          bind-eq-ok (exchange_parts env sender receiver input output amounts quoted.distribution) _
            s h2 in
        let sums = sum_outcomes env os (ok (pos 0), ok (pos 0)) in
        let (a, e4, h4) = reads-eq-ok (λ s. calculated (try_into_balance sums.0)) _ s1 h3 in
        let (f, e5, h5) = reads-eq-ok (λ s. calculated (try_into_balance sums.1)) _ s1 h4 in
        let same : s1 ≡ s' = ap (λ r. r.1) h5 in
        (
          amounts,
          quoted,
          os,
          converted-inversion (try_to_fixed asked) e1,
          e2,
          subst
              (λ t.
                exchange_parts env sender receiver input output amounts quoted.distribution s
                ≡ (ok os, t))
              same e3,
        )

    pub exchange_single-takes :
        (receiver input output : ℕ) (asked : SwapAmount ℕ) (filter : SourceFilter) (s s' : S)
        (o : SwapOutcome ℕ)
        → exchange_single env who receiver input output asked filter s ≡ (ok o, s')
        → balance input s ≤ balance input s' + limit_in asked
    exchange_single-takes receiver input output asked filter s s' o h =
        let (amounts, quoted, os, e1, e2, e3) =
          single-parts who receiver input output asked filter s s' o h in
        let partial = quote_single-IsPartial env laws input output asked filter s e2 in
        let taken =
          exchange_parts-takes receiver input output asked amounts one quoted.distribution s s' os
            e1 partial e3 in
        omega arith

    exchange_single-spares :
        (sender receiver input output asset : ℕ) (asked : SwapAmount ℕ) (filter : SourceFilter)
        (s s' : S) (o : SwapOutcome ℕ)
        → asset ≢ input
        → exchange_single env sender receiver input output asked filter s ≡ (ok o, s')
        → balance asset s ≤ balance asset s'
    exchange_single-spares sender receiver input output asset asked filter s s' o differ h =
        let (amounts, quoted, os, e1, e2, e3) =
          single-parts sender receiver input output asked filter s s' o h in
        exchange_parts-spares sender receiver input output asset amounts quoted.distribution s s' os
          differ e3

    pub exchange_chain-takes :
        (receiver from via to a : ℕ) (filter : SourceFilter) (s s' : S)
        (os : SwapOutcome ℕ × SwapOutcome ℕ)
        → from ≢ via
        → exchange_chain env who receiver from via to a filter s ≡ (ok os, s')
        → balance from s ≤ balance from s' + a
    exchange_chain-takes receiver from via to a filter s s' os differ h =
        let (first, s1, e1, h1) =
          bind-eq-ok
            (exchange_single env who env.technical_account from via
              (SwapAmount.with_desired_input a 0) filter)
            _ s h in
        let asked = SwapAmount.with_desired_input first.amount 0 in
        let (second, s2, e2, h2) =
          bind-eq-ok (exchange_single env env.technical_account receiver via to asked filter)
            (λ second. pure (first, second)) s1 h1 in
        let same : s2 ≡ s' = ap (λ r. r.1) h2 in
        let taken =
          exchange_single-takes env.technical_account from via (SwapAmount.with_desired_input a 0)
            filter s s1 first e1 in
        let spared =
          exchange_single-spares env.technical_account receiver via to from asked filter s1 s2
            second differ e2 in
        subst (λ t. balance from s ≤ balance from t + a) same (omega arith)
