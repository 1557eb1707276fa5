-- ===== src/BondingCurve/RoundTrip.antt =====
-- pallets/bonding-curve-pool/src/lib.rs: what a purchase of the main asset costs, and what a sale of
-- the same amount after it returns.
use sora2_parachain.Prelude.{
  ◌-◌, le→leb, ℕ, ◌+◌, ◌*◌, ◌/◌, ◌≤◌, ◌<◌, ◌≡◌, ◌∙◌, ap, sym, ℤ, pos, arith,
}
use native.Mathlib.Nat.{
  mul-le-mul_right, div-mul-le_self, le-div_iff_mul-le, le_of_mul-le-mul_right,
}
use sora2_parachain.Common.Result.{err, ok, ◌>>=◌, >>=-eq-ok}
use sora2_parachain.Common.Fixed.{
  Fixnum, FixedWrapper, Checked, IsFloored, one, max_bits, from_u128, add, sub, mul, both,
}
use sora2_parachain.Common.Fixed.Inversion.{from_u128-inv, cadd-inv}
use sora2_parachain.Assets.Transfers.{total_issuance}
use sora2_parachain.BondingCurve.Defs.{buy, sell, Curve, State, Env, priced}
use sora2_parachain.BondingCurve.Prices.{integral, main_price, price_for_main_asset}

-- `2 * PC_S * PC_R`, for the step `a` and the rate `b`.
abbrev slope : ℕ → ℕ → ℕ
slope a b = 2 * one * a / one * b / one

-- `integral` for the issuance `q` and the initial price `i`.
abbrev area : ℕ → ℕ → ℕ → ℕ
area d i q = (q * one / d + i) * q / one

div_mono : (m n e : ℕ) → 0 < e → m ≤ n → m / e ≤ n / e
div_mono m n e h le = (le-div_iff_mul-le h).1 (omega (arith, div-mul-le_self m e))

div_add : (m n e : ℕ) → 0 < e → m / e + n / e ≤ (m + n) / e
div_add m n e h = (le-div_iff_mul-le h).1 (omega (arith, div-mul-le_self m e, div-mul-le_self n e))

area-grows : (d i q n : ℕ) → 0 < d → area d i q + n * i / one ≤ area d i (q + n)
area-grows d i q n h =
    let u = q * one / d in
    let v = (q + n) * one / d in
    let grown : u ≤ v = div_mono (q * one) ((q + n) * one) d h (omega arith) in
    let larger : (u + i) * q + n * i ≤ (v + i) * (q + n) =
      omega (arith, mul-le-mul_right q grown) in
    let halves = div_add ((u + i) * q) (n * i) one (omega arith) in
    omega
      (arith, halves, div_mono ((u + i) * q + n * i) ((v + i) * (q + n)) one (omega arith) larger)

pub sold-le : (k p : ℕ) → k ≤ one → k * p / one ≤ p
sold-le k p h =
    le_of_mul-le-mul_right {n = p} {k = one}
      (omega (arith, div-mul-le_self (k * p) one, mul-le-mul_right p h)) (omega arith)

module _ (fx : Fixnum) (laws : IsFloored fx) where
  open laws use {cadd_lem, csub_lem, rmul_lem, rdiv_lem, rdiv_zero}

  both-inv :
      (f : ℤ → ℤ → Checked ℤ) (v w : FixedWrapper) {x : ℤ}
      → both f v w ≡ ok x
      → (a b : ℤ) × (v ≡ ok a) × (w ≡ ok b) × (f a b ≡ ok x)
  both-inv f v w h =
      let (a, ea, rest) = >>=-eq-ok v (λ a. w >>= λ b. f a b) h in
      let (b, eb, last) = >>=-eq-ok w (λ b. f a b) rest in (a, b, ea, eb, last)

  -- A sale at the issuance that the purchase left.
  sale-of_purchase :
      (c : Curve) (n q : ℕ)
      → n + q ≤ max_bits
      → main_price fx c sell (from_u128 (n + q)) q
        ≡ mul fx (ok c.sell_price_coefficient) (main_price fx c buy (from_u128 n) q)
  sale-of_purchase c n q h =
      let rn : from_u128 n ≡ ok (pos n) = ground (arith, le→leb n max_bits) in
      let rq : from_u128 q ≡ ok (pos q) = ground (arith, le→leb q max_bits) in
      let rs : from_u128 (n + q) ≡ ok (pos (n + q)) = ground (arith, le→leb (n + q) max_bits) in
      let up : add fx (from_u128 n) (from_u128 q) ≡ ok (pos (n + q)) =
        rw (rn, rq) (ground (arith, cadd_lem n q, le→leb (n + q) max_bits)) in
      let down : sub fx (from_u128 (n + q)) (from_u128 q) ≡ ok (pos n) =
        rw (rs, rq) (ground (arith, csub_lem (n + q) q)) in
      ap
        (λ w.
          mul fx (ok c.sell_price_coefficient)
            (sub fx (integral fx c w) (integral fx c (sub fx (from_u128 (n + q)) (from_u128 q)))))
        (rs ∙ sym up)
      ∙ ap
          (λ w.
            mul fx (ok c.sell_price_coefficient)
              (sub fx (integral fx c (add fx (from_u128 n) (from_u128 q))) (integral fx c w)))
          (down ∙ sym rn)

  -- With the values of the curve positive or zero.
  module _ (c : Curve) (a b i : ℕ) (step : c.price_change_step ≡ pos a)
      (rate : c.price_change_rate ≡ pos b) (initial : c.initial_price ≡ pos i) where
    integral-inv :
        (q : ℕ) {x : ℤ}
        → integral fx c (ok (pos q)) ≡ ok x
        → (0 < slope a b) × (x ≡ pos (area (slope a b) i q)) × (area (slope a b) i q ≤ max_bits)
    integral-inv q h =
        let values = rw (step, rate, initial) at h in
        ground (
          arith,
          rmul_lem (2 * one) a,
          rmul_lem (2 * one * a / one) b,
          rdiv_lem q (slope a b),
          rdiv_zero (pos q),
          cadd_lem (q * one / slope a b) i,
          rmul_lem (q * one / slope a b + i) q,
        )

    -- A purchase at the issuance `n`.
    purchase-inv :
        (n q : ℕ) {x : ℤ}
        → main_price fx c buy (from_u128 n) q ≡ ok x
        → (p : ℕ) × (x ≡ pos p) × (q * i / one ≤ p) × (p ≤ max_bits) × (n + q ≤ max_bits)
    purchase-inv n q h =
        let (after, before, e1, e2, e3) =
          both-inv fx.csub (integral fx c (add fx (from_u128 n) (from_u128 q)))
            (integral fx c (from_u128 n)) h in
        let (u, issued, eu, ei, eprod) =
          both-inv fx.rmul _ (add fx (from_u128 n) (from_u128 q)) e1 in
        let (m, k, g1, g2, g3) = both-inv fx.cadd (from_u128 n) (from_u128 q) ei in
        let (em, lm) = from_u128-inv n g1 in
        let (ek, lk) = from_u128-inv q g2 in
        let (sum, bound) = cadd-inv fx laws n q (rw (em, ek) at g3) in
        let (d, ea, la) =
          integral-inv (n + q) (ap (λ w. integral fx c w) (sym (ei ∙ ap ok sum)) ∙ e1) in
        let (d', eb, lb) = integral-inv n (ap (λ w. integral fx c w) (sym (g1 ∙ ap ok em)) ∙ e2) in
        let grows = area-grows (slope a b) i n q d in
        let difference =
          csub_lem (area (slope a b) i (n + q)) (area (slope a b) i n) (omega arith) la in
        let price = rw (ea, eb) at e3 in
        (
          area (slope a b) i (n + q) - area (slope a b) i n,
          ground arith,
          omega arith,
          omega arith,
          bound,
        )

  priced-inv : (w : FixedWrapper) {x : ℤ} → priced w ≡ ok x → w ≡ ok x
  priced-inv (ok a) h = ground arith
  priced-inv (err e) h = absurd (ground arith)

  sold : (k p : ℕ) → k ≤ one → p ≤ max_bits → fx.rmul (pos k) (pos p) ≡ ok (pos (k * p / one))
  sold k p small le = ground (arith, rmul_lem k p, le→leb (k * p / one) max_bits, sold-le k p small)

module _ {S L R : Type 0} (env : Env S L R) (laws : IsFloored (env.fx)) where
  open env use {technical_env, fx}
  open technical_env use {assets_env}

  -- Where no value of the curve is negative, a price of `q` main assets to buy is `q` times the
  -- initial price, rounded down, or more.
  pub price_for_main_asset_bounds :
      (asset q : ℕ) (s : State S L R) {a b i : ℕ} {x : ℤ}
      → s.curve.price_change_step ≡ pos a
      → s.curve.price_change_rate ≡ pos b
      → s.curve.initial_price ≡ pos i
      → price_for_main_asset env asset q buy s ≡ ok x
      → (p : ℕ) × (x ≡ pos p) × (q * i / one ≤ p)
  unfolding price_for_main_asset
  price_for_main_asset_bounds asset q s {a} {b} {i} step rate initial h =
      let (n, issued, priced_n) =
        >>=-eq-ok (total_issuance assets_env asset s.technical.assets)
          (λ n. priced (main_price fx s.curve buy (from_u128 n) q)) h in
      let (p, ex, low, high, issued_all) =
        purchase-inv fx laws s.curve a b i step rate initial n q (priced-inv fx laws _ priced_n) in
      (p, ex, low)

  -- Where moreover the sell price coefficient is at most one: once `q` main assets were bought and
  -- issued, and the curve is as it was, they sell for the coefficient times what they cost, rounded
  -- down, which is not more than they cost.
  pub price_for_main_asset-sell-buy :
      (asset q : ℕ) (s s' : State S L R) {a b i k n : ℕ} {x : ℤ}
      → s.curve.price_change_step ≡ pos a
      → s.curve.price_change_rate ≡ pos b
      → s.curve.initial_price ≡ pos i
      → s.curve.sell_price_coefficient ≡ pos k
      → k ≤ one
      → s'.curve ≡ s.curve
      → total_issuance assets_env asset s.technical.assets ≡ ok n
      → total_issuance assets_env asset s'.technical.assets ≡ ok (n + q)
      → price_for_main_asset env asset q buy s ≡ ok x
      → (p : ℕ) × (x ≡ pos p)
        × (price_for_main_asset env asset q sell s' ≡ ok (pos (k * p / one)))
        × (k * p / one ≤ p)
  unfolding price_for_main_asset
  price_for_main_asset-sell-buy asset q s s' {a} {b} {i} {k} {n} step rate initial coef small same
        before after h =
      let price = priced-inv fx laws (main_price fx s.curve buy (from_u128 n) q) (rw before at h) in
      let (p, ex, low, high, issued) =
        purchase-inv fx laws s.curve a b i step rate initial n q price in
      let paid =
        ap (λ w. mul fx (ok s.curve.sell_price_coefficient) w) (price ∙ ap ok ex)
        ∙ ap (λ y. fx.rmul y (pos p)) coef
        ∙ sold fx laws k p small high in
      let sale =
        ap (λ r. r >>= λ m. priced (main_price fx s'.curve sell (from_u128 m) q)) after
        ∙ ap (λ c. priced (main_price fx c sell (from_u128 (n + q)) q)) same
        ∙ ap priced (sale-of_purchase fx laws s.curve n q issued ∙ paid) in
      (p, ex, sale, sold-le k p small)
