-- ===== src/LiquidityProxy/FastSplit/Fractions.antt =====
-- pallets/liquidity-proxy/src/lib.rs: the two fractions of a fast split are those of the whole.
use sora2_parachain.Prelude.{
  ℕ, nat_eq, ◌||◌, ◌+◌, ◌-◌, ◌*◌, ◌/◌, ◌≤◌, ◌<◌, ◌≡◌, ◌∙◌, refl, ap, subst, Bool, true, false, List,
  [], ◌∷◌, arith, ℤ, pos, negsuc, ltb, leb, if◌then◌else◌, inl, inr, Bool-cases,
}
use native.Mathlib.Nat.{div-mul-le_self, le_of_mul-le-mul_right}
use sora2_parachain.Common.Errors.{LiquidityProxyError}
use sora2_parachain.Common.Result.{ok, ◌>>=◌, >>=-eq-ok, ensure-eq-ok}
use sora2_parachain.Common.Fixed.{
  IsFloored, FixedWrapper, one, max_bits, from_u128, mul, div, multiply_and_sqrt, sqrt_accurate,
}
use sora2_parachain.Common.SwapAmounts.{SwapAmount, with_desired_input, with_desired_output, amount}
use sora2_parachain.Common.Sources.{SourceId}
use sora2_parachain.LiquidityProxy.Config.{
  Env, AggregatedSwapOutcome, Fallible, recast, or_default, failed,
}
use sora2_parachain.LiquidityProxy.FastSplit.{
  less, or_zero, not_above_one, not_below_zero, nine_tenths, in_two, fraction_of, complement,
  with_complement, buying_delta, selling_delta, quote_parts, quote_distribution, reweighed, reweigh,
  only_primary, split_by_reserves, decide_amounts_buying_base_asset,
  decide_amounts_selling_base_asset, fast_split_primary_vs_secondary,
}

-- Two fractions that are not negative and make one.
abbrev pub IsWhole : ℤ × ℤ → Type 0
IsWhole fractions = (p q : ℕ) × (fractions ≡ (pos p, pos q)) × (p + q ≡ one)

-- The distribution is between both markets, in fractions of the whole.
abbrev pub IsApportioned : SourceId → SourceId → List (SourceId × ℤ) → Type 0
IsApportioned primary secondary d =
    (p q : ℕ) × (d ≡ (primary, pos p) ∷ (secondary, pos q) ∷ []) × (p + q ≡ one)

clamped : (f : ℤ) → (p : ℕ) × (not_below_zero (not_above_one f) ≡ pos p) × (p ≤ one)
clamped (pos n) = elim (Bool-cases (ltb one n)) [
  | inl e ↦ (one, ground arith, ground arith)
  | inr e ↦ (n, ground arith, ground arith)
]
clamped (negsuc n) = (0, ground arith, ground arith)

IsApportioned-in_two :
    (primary secondary : SourceId) (fractions : ℤ × ℤ)
    → IsWhole fractions
    → IsApportioned primary secondary (in_two primary secondary fractions)
IsApportioned-in_two primary secondary fractions (p, q, e, whole) =
    (p, q, ap (in_two primary secondary) e, whole)

module _ {S P : Type 0} (env : Env S P) (laws : IsFloored env.fx) where
  open env use {fx}

  fraction_of-le :
      (better : Bool) (delta wrapped : FixedWrapper)
      → (p : ℕ) × (fraction_of env better delta wrapped ≡ pos p) × (p ≤ one)
  fraction_of-le true delta wrapped = clamped (or_zero (div fx delta wrapped))
  fraction_of-le false delta wrapped = (0, refl, omega arith)

  complement_lem : (f : ℕ) → f ≤ one → complement env (pos f) ≡ ok (pos (one - f))
  complement_lem f h = let e = laws.csub_lem one f h (omega arith) in rw e refl

  -- The `unwrap` does not panic.
  with_complement_lem :
      (better : Bool) (delta wrapped : FixedWrapper)
      → (r : ℤ × ℤ) × (with_complement env (fraction_of env better delta wrapped) ≡ ok r)
        × IsWhole r
  with_complement_lem better delta wrapped =
      let (p, e, h) = fraction_of-le better delta wrapped in
      (
        (pos (one - p), pos p),
        ap (with_complement env) e
            ∙ ap (λ (r : Fallible ℤ). r >>= λ prim. ok (prim, pos p)) (complement_lem p h),
        (one - p, p, refl, omega arith),
      )

  with_complement-IsWhole :
      (better : Bool) (delta wrapped : FixedWrapper) {r : ℤ × ℤ}
      → with_complement env (fraction_of env better delta wrapped) ≡ ok r
      → IsWhole r
  with_complement-IsWhole better delta wrapped {r} h =
      let (found, e, w) = with_complement_lem better delta wrapped in
      let same : found ≡ r = ground arith in subst IsWhole same w

  -- The reweighed fraction of the primary market.
  less_primary :
      (r a : ℕ)
      → r < a
      → a ≤ max_bits
      → (f : ℕ) × (f ≤ one)
        × (or_zero (div fx (mul fx (ok (pos nine_tenths)) (ok (pos r))) (ok (pos a))) ≡ pos f)
  less_primary r a h k =
      let n = nine_tenths * r / one in
      let small : n ≤ r = omega arith in
      let product : fx.rmul (pos nine_tenths) (pos r) ≡ ok (pos n) =
        ground (arith, laws.rmul_lem nine_tenths r) in
      let f = n * one / a in
      let below : f ≤ one =
        le_of_mul-le-mul_right {m = f} {n = one} {k = a}
          (let le = div-mul-le_self (n * one) a in omega arith) (omega arith) in
      let quotient : fx.rdiv (pos n) (pos a) ≡ ok (pos f) =
        laws.rdiv_lem n a (omega arith) ∙ ground arith in
      (f, below, rw (product, quotient) refl)

  less-inversion :
      (r a p : ℕ)
      → less (from_u128 r) (mul fx (from_u128 a) (ok (pos p))) ≡ true
      → (r ≤ max_bits) × (a ≤ max_bits) × (r < a * p / one)
  less-inversion r a p h = elim (Bool-cases (leb r max_bits)) [
    | inr big ↦ absurd (ground arith)
    | inl small ↦ elim (Bool-cases (leb a max_bits)) [
      | inr big ↦ absurd (ground arith)
      | inl fits ↦ (ground arith, ground arith, ground (arith, laws.rmul_lem a p))
    ]
  ]

  below_whole : (a p : ℕ) → p ≤ one → a * p / one ≤ a
  below_whole a p h = grind (arith)

  reweighed_lem :
      (r a : ℕ) (fractions : ℤ × ℤ)
      → IsWhole fractions
      → (next : ℤ × ℤ) × (reweighed env (from_u128 r) (from_u128 a) fractions ≡ ok next)
        × IsWhole next
  reweighed_lem r a fractions (p, q, e, whole) =
      elim (Bool-cases (less (from_u128 r) (mul fx (from_u128 a) (ok (pos p))))) [
        | inl lacks ↦
            let (small, fits, lt) = less-inversion r a p lacks in
            let below = below_whole a p (omega arith) in
            let (f, le, share) = less_primary r a (omega arith) fits in
            let r_bits : from_u128 r ≡ ok (pos r) = ground arith in
            let a_bits : from_u128 a ≡ ok (pos a) = ground arith in
            let same : or_zero (div fx (mul fx (ok (pos nine_tenths)) (from_u128 r)) (from_u128 a))
                ≡ pos f =
              ap (λ x. or_zero (div fx (mul fx (ok (pos nine_tenths)) x) (from_u128 a))) r_bits
              ∙ ap (λ y. or_zero (div fx (mul fx (ok (pos nine_tenths)) (ok (pos r))) y)) a_bits
              ∙ share in
            (
              (pos f, pos (one - f)),
              rw (e, lacks)
                  (ap (λ g. complement env g >>= λ more_sec. ok (g, more_sec)) same
                    ∙ ap (λ (c : Fallible ℤ). c >>= λ more_sec. ok (pos f, more_sec))
                        (complement_lem f le)),
              (f, one - f, refl, omega arith),
            )
        | inr enough ↦ ((pos p, pos q), rw (e, enough) refl, (p, q, refl, whole))
      ]

  reweigh-IsWhole :
      (asked : SwapAmount ℕ) (collateral : ℕ) (fractions : ℤ × ℤ) (s : S) {next : ℤ × ℤ}
      → IsWhole fractions
      → reweigh env asked collateral fractions s ≡ ok next
      → IsWhole next
  reweigh-IsWhole (with_desired_input a m) collateral fractions s {next} w h =
      let same : fractions ≡ next = ground arith in subst IsWhole same w
  reweigh-IsWhole (with_desired_output a m) collateral fractions s {next} w h =
      let (r, e, k) =
        >>=-eq-ok (or_default 0 (env.primary_market.collateral_reserves collateral s))
          (λ r. reweighed env (from_u128 r) (from_u128 a) fractions) h in
      let (found, e1, done) = reweighed_lem r a fractions w in
      let same : found ≡ next = ground arith in subst IsWhole same done

  quote_distribution-distribution :
      (asked : SwapAmount ℕ) (input output : ℕ) (d : List (SourceId × ℤ)) (s : S)
      {o : AggregatedSwapOutcome}
      → quote_distribution env asked input output d s ≡ ok o
      → d ≡ o.distribution
  unfolding quote_distribution
  quote_distribution-distribution asked input output d s h =
      let ((best, fee), e, k) = >>=-eq-ok (quote_parts env asked input output d (0, 0) s) _ h in
      ground arith

  IsApportioned-quoted :
      (primary secondary : SourceId) (fractions : ℤ × ℤ) (asked : SwapAmount ℕ) (input output : ℕ)
      (s : S) {o : AggregatedSwapOutcome}
      → IsWhole fractions
      → quote_distribution env asked input output (in_two primary secondary fractions) s ≡ ok o
      → IsApportioned primary secondary o.distribution
  IsApportioned-quoted primary secondary fractions asked input output s w h =
      subst (IsApportioned primary secondary)
        (quote_distribution-distribution asked input output (in_two primary secondary fractions) s
          h)
        (IsApportioned-in_two primary secondary fractions w)

  buying-IsApportioned :
      (primary secondary : SourceId) (base collateral : ℕ) (asked : SwapAmount ℕ) (reserves : ℕ × ℕ)
      (s : S) {o : AggregatedSwapOutcome}
      → decide_amounts_buying_base_asset env primary secondary base collateral asked reserves s
        ≡ ok o
      → IsApportioned primary secondary o.distribution
  unfolding decide_amounts_buying_base_asset
  buying-IsApportioned primary secondary base collateral asked (in_base, in_other) s h =
      let x = from_u128 in_base in
      let y = from_u128 in_other in
      let (price, e, h1) =
        >>=-eq-ok (recast (env.primary_market.buy_price base collateral s)) _ h in
      let (fractions, e1, h2) = >>=-eq-ok (with_complement env _) _ h1 in
      IsApportioned-quoted primary secondary fractions asked collateral base s
        (with_complement-IsWhole (less (div fx y x) (ok price))
          (buying_delta env asked x y (multiply_and_sqrt fx x y) (sqrt_accurate fx (ok price)))
          (from_u128 (amount asked)) e1)
        h2

  selling-IsApportioned :
      (primary secondary : SourceId) (base collateral : ℕ) (asked : SwapAmount ℕ) (reserves : ℕ × ℕ)
      (s : S) {o : AggregatedSwapOutcome}
      → decide_amounts_selling_base_asset env primary secondary base collateral asked reserves s
        ≡ ok o
      → IsApportioned primary secondary o.distribution
  unfolding decide_amounts_selling_base_asset
  selling-IsApportioned primary secondary base collateral asked (in_base, in_other) s h =
      let x = from_u128 in_base in
      let y = from_u128 in_other in
      let (price, e, h1) =
        >>=-eq-ok (recast (env.primary_market.sell_price base collateral s)) _ h in
      let (first, e1, h2) = >>=-eq-ok (with_complement env _) _ h1 in
      let (fractions, e2, h3) = >>=-eq-ok (reweigh env asked collateral first s) _ h2 in
      IsApportioned-quoted primary secondary fractions asked base collateral s
        (reweigh-IsWhole asked collateral first s
          (with_complement-IsWhole (less (ok price) (div fx y x))
            (selling_delta env asked x y (multiply_and_sqrt fx x y) (sqrt_accurate fx (ok price)))
            (from_u128 (amount asked)) e1)
          e2)
        h3

  primary-IsApportioned :
      (primary secondary : SourceId) (input output : ℕ) (asked : SwapAmount ℕ) (s : S)
      {o : AggregatedSwapOutcome}
      → only_primary env primary secondary input output asked s ≡ ok o
      → IsApportioned primary secondary o.distribution
  primary-IsApportioned primary secondary input output asked s h =
      let (q, e, k) = >>=-eq-ok (env.registry.source.quote primary input output asked s) _ h in
      (one, 0, ground arith, omega arith)

  reserves-IsApportioned :
      (primary secondary : SourceId) (input output other : ℕ) (asked : SwapAmount ℕ)
      (in_base in_other : ℕ) (s : S) {o : AggregatedSwapOutcome}
      → split_by_reserves env primary secondary input output other asked (in_base, in_other) s
        ≡ ok o
      → IsApportioned primary secondary o.distribution
  reserves-IsApportioned primary secondary input output other asked in_base in_other s h =
      elim (Bool-cases (nat_eq in_base 0 || nat_eq in_other 0)) [
        | inl none_left ↦
            primary-IsApportioned primary secondary input output asked s (rw none_left at h)
        | inr some_left ↦ elim (Bool-cases (nat_eq output env.base_asset)) [
          | inl bought ↦
              buying-IsApportioned primary secondary env.base_asset other asked (in_base, in_other)
                s (rw (some_left, bought) at h)
          | inr sold ↦
              selling-IsApportioned primary secondary env.base_asset other asked (in_base, in_other)
                s (rw (some_left, sold) at h)
        ]
      ]

  -- A fast split that succeeds divides the trade between the primary and the secondary market, in
  -- fractions that are not negative and make exactly one, whichever way and side the trade is given
  -- and whatever the prices and reserves are.
  pub fast_split-IsApportioned :
      (primary secondary : SourceId) (input output : ℕ) (asked : SwapAmount ℕ) (s : S)
      {o : AggregatedSwapOutcome}
      → fast_split_primary_vs_secondary env primary secondary input output asked s ≡ ok o
      → IsApportioned primary secondary o.distribution
  unfolding fast_split_primary_vs_secondary
  fast_split-IsApportioned primary secondary input output asked s h =
      let other = if nat_eq env.base_asset input then output else input in
      let in_pool = env.secondary_market.reserves env.base_asset other s in
      let (base_given, h1) =
        ensure-eq-ok (nat_eq input env.base_asset || nat_eq output env.base_asset)
          (failed LiquidityProxyError.unavailable_exchange_path)
          (split_by_reserves env primary secondary input output other asked in_pool s) h in
      reserves-IsApportioned primary secondary input output other asked in_pool.0 in_pool.1 s h1
