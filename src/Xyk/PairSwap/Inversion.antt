-- ===== src/Xyk/PairSwap/Inversion.antt =====
-- pallets/pool-xyk/src/action_pair_swap.rs: what the steps of a preparation that succeeded say.
use sora2_parachain.Prelude.{
  ℕ, ◌≤◌, ◌<◌, ◌≡◌, ◌∙◌, ap, sym, Bool, true, Option, none, some, ltb, leb, arith,
}
use sora2_parachain.Common.Result.{ok, ensure, ◌>>=◌, ◌>>◌, >>=-eq-ok, ensure-eq-ok}
use sora2_parachain.Common.Fixed.{Fixnum}
use sora2_parachain.Xyk.Bounds.{Bounds, calculated, desired, is_dummy}
use sora2_parachain.Xyk.Bounds
use sora2_parachain.Xyk.Math.{Outcome, calc_output_for_exact_input, calc_input_for_exact_output}
use sora2_parachain.Common.Primitives.{TechAccountId}
use sora2_parachain.Xyk.Defs.{PairSwapAction, Env}
use sora2_parachain.Xyk.PairSwap.Prepare.{
  decide_amounts, settle, fee_side, fee_account_for, fee_for, unwrapped, pool_stays_valid,
  pool_has_liquidity, set_destination, set_source, decide_for, set_accounts, or_client, client_of,
  zero_error, out_of_bounds,
}

pub ltb-lt : (n : ℕ) → ltb 0 n ≡ true → 0 < n
ltb-lt n h = ground arith

-- The choice of an amount: by the one that is given, within the bound on the other.
module _ (given recommended : ℕ) (put : ℕ → PairSwapAction) (a' : PairSwapAction)
    (fits : ℕ → Bool) where
  abbrev checked : ℕ × ℕ → Outcome (PairSwapAction × ℕ)
  checked (n, fee) = ensure (fits n) out_of_bounds >> ok (put n, fee)

  choice-same :
      (n fee : ℕ)
      → ◌≡◌ {A = Outcome (PairSwapAction × ℕ)} (ok (put n, fee)) (ok (a', recommended))
      → (fee ≡ recommended) × (a' ≡ put n)
  choice-same n fee h = ground arith

  chosen-inversion :
      (price : Outcome (ℕ × ℕ))
      → (ensure (ltb 0 given) zero_error >> (price >>= checked)) ≡ ok (a', recommended)
      → (n : ℕ) × (price ≡ ok (n, recommended)) × (fits n ≡ true) × (0 < given) × (a' ≡ put n)
  chosen-inversion price h =
      let (positive, h1) = ensure-eq-ok (ltb 0 given) zero_error (price >>= checked) h in
      let (p, e, h2) = >>=-eq-ok price checked h1 in
      let (fit, h3) = ensure-eq-ok (fits p.0) out_of_bounds (ok (put p.0, p.1)) h2 in
      let (same_fee, same) = choice-same p.0 p.1 h3 in
      (p.0, e ∙ ap (λ x. ok (p.0, x)) same_fee, fit, ltb-lt given positive, same)

ok_inj : (a b : PairSwapAction) → ◌≡◌ {A = Outcome PairSwapAction} (ok a) (ok b) → a ≡ b
ok_inj a b h = ground arith

module _ (fx : Fixnum) (side : Bool) (st tt' : ℕ) where
  pub output-inversion :
      (sa m recommended : ℕ) (a a' : PairSwapAction)
      → decide_amounts fx side st tt' a ≡ ok (a', recommended)
      → a.source.amount ≡ desired sa
      → a.destination.amount ≡ Bounds.min m
      → (out : ℕ) × (calc_output_for_exact_input fx side st tt' sa ≡ ok (out, recommended))
        × (leb m out ≡ true)
        × (0 < sa)
        × (a' ≡ set_destination (calculated out) a)
  unfolding decide_amounts
  output-inversion sa m recommended a a' h e f =
      chosen-inversion sa recommended (λ n. set_destination (calculated n) a) a' (leb m)
        (calc_output_for_exact_input fx side st tt' sa)
        (ap (λ b. decide_for fx side st tt' b (Bounds.min m) a) (sym e)
          ∙ ap (λ b. decide_for fx side st tt' a.source.amount b a) (sym f)
          ∙ h)

  pub input-inversion :
      (sa_max ta recommended : ℕ) (a a' : PairSwapAction)
      → decide_amounts fx side st tt' a ≡ ok (a', recommended)
      → a.source.amount ≡ Bounds.max sa_max
      → a.destination.amount ≡ desired ta
      → (x_in : ℕ) × (calc_input_for_exact_output fx side st tt' ta ≡ ok (x_in, recommended))
        × (leb x_in sa_max ≡ true)
        × (0 < ta)
        × (a' ≡ set_source (calculated x_in) a)
  unfolding decide_amounts
  input-inversion sa_max ta recommended a a' h e f =
      chosen-inversion ta recommended (λ n. set_source (calculated n) a) a' (λ n. leb n sa_max)
        (calc_input_for_exact_output fx side st tt' ta)
        (ap (λ b. decide_for fx side st tt' b (desired ta) a) (sym e)
          ∙ ap (λ b. decide_for fx side st tt' a.source.amount b a) (sym f)
          ∙ h)

abbrev pub with_accounts : ℕ → PairSwapAction → PairSwapAction
with_accounts client a = record a {
  client_account = some client;
  receiver_account = or_client a.receiver_account (some client);
}

pub client_of-inversion :
    (source : ℕ) (known : Option ℕ) {client : ℕ}
    → client_of source known ≡ ok client
    → client ≡ source
client_of-inversion source none h = ground arith
client_of-inversion source (some ca) h = ground arith

pub accounts-inversion :
    (source : ℕ) (a a1 : PairSwapAction)
    → set_accounts source a ≡ ok a1
    → a1 ≡ with_accounts source a
unfolding set_accounts
accounts-inversion source a a1 h =
    let (client, e, h1) = >>=-eq-ok (client_of source a.client_account) _ h in
    let same = client_of-inversion source a.client_account e in
    let step = ok_inj (with_accounts client a) a1 h1 in sym step ∙ ap (λ c. with_accounts c a) same

pub liquidity-positive :
    (st tt' : ℕ) {u : Unit {0}} → pool_has_liquidity st tt' ≡ ok u → (0 < st) × (0 < tt')
liquidity-positive st tt' h = ground arith

pub unwrapped-some : {A : Type 0} {n : A} (o : Option A) → unwrapped o ≡ ok n → o ≡ some n
unwrapped-some none h = absurd (ground arith)
unwrapped-some (some m) h = ground arith

pub leb-le : (m n : ℕ) → leb m n ≡ true → m ≤ n
leb-le m n h = ground arith

filled :
    (a a' : PairSwapAction) (fee : ℕ) (fa : TechAccountId)
    → ◌≡◌ {A = Outcome PairSwapAction}
        (ok (record a { fee = some fee; fee_account = some fa }))
        (ok a')
    → a' ≡ record a { fee = a'.fee; fee_account = a'.fee_account }
filled a a' fee fa h = ground arith

module _ {S L : Type 0} (env : Env S L) where
  open env use {technical_env, fx}
  open technical_env use {assets_env}

  pub settle-inversion :
      (ss st tt' : ℕ) (a a' : PairSwapAction)
      → settle env ss st tt' a ≡ ok a'
      → (side : Bool) × (a1 : PairSwapAction) × (recommended sa ta : ℕ) × (decide_amounts fx side st
            tt'
            (record a { get_fee_from_destination = some side })
          ≡ ok (a1, recommended))
        × (Bounds.unwrap a1.source.amount ≡ some sa)
        × (Bounds.unwrap a1.destination.amount ≡ some ta)
        × (sa ≤ ss)
        × (ta ≤ tt')
        × (0 < st)
        × (0 < tt')
        × (a' ≡ record a1 { fee = a'.fee; fee_account = a'.fee_account })
  unfolding settle
  settle-inversion ss st tt' a a' h =
      let (p1, h1) = ensure-eq-ok _ _ _ h in
      let (l, e2, h2) = >>=-eq-ok (pool_has_liquidity st tt') _ h1 in
      let (side, e3, h3) = >>=-eq-ok (fee_side env a) _ h2 in
      let priced =
        decide_amounts fx side st tt' (record a { get_fee_from_destination = some side }) in
      let (q, e4, h4) = >>=-eq-ok priced _ h3 in
      let (fa, e5, h5) = >>=-eq-ok (fee_account_for env q.0.pool_account q.0.fee_account) _ h4 in
      let (sa, e6, h6) = >>=-eq-ok (unwrapped (Bounds.unwrap q.0.source.amount)) _ h5 in
      let (ta, e7, h7) = >>=-eq-ok (unwrapped (Bounds.unwrap q.0.destination.amount)) _ h6 in
      let (fee, e8, h8) = >>=-eq-ok (fee_for q.1 q.0.fee) _ h7 in
      let (p9, h9) = ensure-eq-ok (leb sa ss) _ _ h8 in
      let (p10, h10) = ensure-eq-ok (leb ta tt') _ _ h9 in
      let (u, e11, h11) = >>=-eq-ok (pool_stays_valid fx st tt' sa ta) _ h10 in
      let (some_st, some_tt) = liquidity-positive st tt' e2 in
      (
        side,
        q.0,
        q.1,
        sa,
        ta,
        e4,
        unwrapped-some _ e6,
        unwrapped-some _ e7,
        leb-le sa ss p9,
        leb-le ta tt' p10,
        some_st,
        some_tt,
        filled q.0 a' fee fa h11,
      )
