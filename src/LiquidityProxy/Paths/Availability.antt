-- ===== src/LiquidityProxy/Paths/Availability.antt =====
-- pallets/liquidity-proxy/src/lib.rs: a path is available, and its sources are listed, exactly when
-- the pairs of its assets with the base asset have enabled sources.
use sora2_parachain.Prelude.{
  ℕ, ◌≡◌, ◌≢◌, ◌↔◌, ◌⊎◌, inl, inr, refl, sym, subst, Bool-cases, true, false, not, ◌&&◌, List, [],
  ◌∷◌, if◌then◌else◌, arith, nat_eq, nat_eq_iff,
}
use sora2_parachain.Common.Errors.{LiquidityProxyError}
use sora2_parachain.Common.Result.{ok, err, ◌>>=◌}
use sora2_parachain.Common.Primitives.{TradingPair, LiquiditySourceType}
use sora2_parachain.TradingPairs.{list_enabled_sources_for_trading_pair, pair_of}
use sora2_parachain.LiquidityProxy.Config.{Env, Fallible, failed}
use sora2_parachain.LiquidityProxy.Paths.{
  ExchangePath, direct, twofold, weak_sort_pair, construct_trivial_path, is_empty, union,
  enabled_sources, is_available_along, list_along, is_path_available, list_enabled_sources_for_path,
}

abbrev Types : Type 0
Types = List LiquiditySourceType

-- A listing that succeeds and is not empty.
abbrev pub IsListed : Fallible Types → Type 0
IsListed r = (t : LiquiditySourceType) × (us : Types) × (r ≡ ok (t ∷ us))

-- One listing.
one_available :
    (first : Fallible Types) → ((first >>= λ ts. ok (not (is_empty ts))) ≡ ok true) ↔ IsListed first
one_available (err e) =
    ((λ h. absurd (ground arith)), (λ r. absurd (let (t, us, h) = r in ground arith)))
one_available (ok []) =
    ((λ h. absurd (ground arith)), (λ r. absurd (let (t, us, h) = r in ground arith)))
one_available (ok (t ∷ ts)) = ((λ h. (t, ts, refl)), (λ r. refl))

one-IsListed :
    (first : Fallible Types)
    → ((us : Types) × ((first >>= λ ts.
            if is_empty ts
            then err (failed LiquidityProxyError.unavailable_exchange_path)
            else ok ts)
          ≡ ok us))
      ↔ IsListed first
one-IsListed (err e) = (
  (λ r. absurd (let (us, h) = r in ground arith)),
  (λ r. absurd (let (t, us, h) = r in ground arith)),
)
one-IsListed (ok []) = (
  (λ r. absurd (let (us, h) = r in ground arith)),
  (λ r. absurd (let (t, us, h) = r in ground arith)),
)
one-IsListed (ok (t ∷ ts)) = ((λ h. (t, ts, refl)), (λ r. (t ∷ ts, refl)))

-- Two listings: what the first and the second say when both succeed and are not empty.
two_available :
    (first second : Fallible Types)
    → ((first >>= λ ts. if is_empty ts then ok false else (second >>= λ us. ok (not (is_empty us))))
        ≡ ok true)
      ↔ (IsListed first × IsListed second)
two_available (err e) second =
    ((λ h. absurd (ground arith)), (λ r. absurd (let (t, us, h) = r.0 in ground arith)))
two_available (ok []) second =
    ((λ h. absurd (ground arith)), (λ r. absurd (let (t, us, h) = r.0 in ground arith)))
two_available (ok (t ∷ ts)) second =
    let both = one_available second in ((λ h. ((t, ts, refl), both.0 h)), (λ r. both.1 (r.1)))

two-IsListed :
    (first second : Fallible Types)
    → ((us : Types) × ((first >>= λ ts. second >>= λ us.
            if not (is_empty ts) && not (is_empty us)
            then ok (union ts us)
            else err (failed LiquidityProxyError.unavailable_exchange_path))
          ≡ ok us))
      ↔ (IsListed first × IsListed second)
two-IsListed (err e) second = (
  (λ r. absurd (let (us, h) = r in ground arith)),
  (λ r. absurd (let (t, us, h) = r.0 in ground arith)),
)
two-IsListed (ok []) (err e) = (
  (λ r. absurd (let (us, h) = r in ground arith)),
  (λ r. absurd (let (t, us, h) = r.0 in ground arith)),
)
two-IsListed (ok []) (ok us) = (
  (λ r. absurd (let (us, h) = r in ground arith)),
  (λ r. absurd (let (t, us, h) = r.0 in ground arith)),
)
two-IsListed (ok (t ∷ ts)) (err e) = (
  (λ r. absurd (let (us, h) = r in ground arith)),
  (λ r. absurd (let (t, us, h) = r.1 in ground arith)),
)
two-IsListed (ok (t ∷ ts)) (ok []) = (
  (λ r. absurd (let (us, h) = r in ground arith)),
  (λ r. absurd (let (t, us, h) = r.1 in ground arith)),
)
two-IsListed (ok (t ∷ ts)) (ok (u ∷ us)) =
    ((λ r. ((t, ts, refl), (u, us, refl))), (λ r. (union (t ∷ ts) (u ∷ us), refl)))

module _ {S P : Type 0} (env : Env S P) (dex_id : ℕ) (s : S) where
  open env use {base_asset}

  abbrev Serves : ExchangePath → Type 0
  Serves (direct from to) =
      let pair = weak_sort_pair env from to in
      IsListed (enabled_sources env dex_id pair.base_asset_id pair.target_asset_id s)
  Serves (twofold from via to) =
      IsListed (enabled_sources env dex_id via from s)
      × IsListed (enabled_sources env dex_id via to s)

  along_iff :
      (path : ExchangePath)
      → ((is_available_along env dex_id path s ≡ ok true) ↔ Serves path)
        × (((ts : Types) × (list_along env dex_id path s ≡ ok ts)) ↔ Serves path)
  along_iff (direct from to) =
      let pair = weak_sort_pair env from to in
      let listing = enabled_sources env dex_id pair.base_asset_id pair.target_asset_id s in
      (one_available listing, one-IsListed listing)
  along_iff (twofold from via to) =
      let first = enabled_sources env dex_id via from s in
      let second = enabled_sources env dex_id via to s in
      (two_available first second, two-IsListed first second)

  -- The pair of the base asset and `asset` has an enabled source.
  abbrev pub HasSource : ℕ → Type 0
  HasSource asset =
      IsListed (list_enabled_sources_for_trading_pair dex_id base_asset asset (env.trading_pairs s))

  -- The output has a source where the input is the base asset, the input where only the output is,
  -- and otherwise both have one.
  abbrev pub IsServed : ℕ → ℕ → Type 0
  IsServed input output =
      (input ≡ base_asset) × HasSource output
      ⊎ ((input ≢ base_asset) × (output ≡ base_asset) × HasSource input
          ⊎ (input ≢ base_asset) × (output ≢ base_asset) × HasSource input × HasSource output)

  Serves-pair :
      (input output base target : ℕ)
      → construct_trivial_path env input output ≡ direct input output
      → weak_sort_pair env input output ≡ pair_of base target
      → base ≡ base_asset
      → Serves (construct_trivial_path env input output) ↔ HasSource target
  Serves-pair input output base target path pair e =
      let listing : TradingPair → Type 0 =
        λ q. IsListed (enabled_sources env dex_id q.base_asset_id q.target_asset_id s) in
      let at : ℕ → Type 0 = λ b. IsListed (enabled_sources env dex_id b target s) in
      (
        (λ r. subst at e (subst listing pair (subst Serves path r))),
        λ r. subst Serves (sym path) (subst listing (sym pair) (subst at (sym e) r)),
      )

  from_base :
      (input output : ℕ)
      → nat_eq input base_asset ≡ true
      → Serves (construct_trivial_path env input output) ↔ IsServed input output
  unfolding construct_trivial_path weak_sort_pair
  from_base input output h =
      let e : input ≡ base_asset = (nat_eq_iff input base_asset).0 h in
      let both = Serves-pair input output input output (rw h refl) (rw h refl) e in
      (
        (λ r. inl (e, both.0 r)),
        λ r. elim r [
          | inl (e', r') ↦ both.1 r'
          | inr (inl (k, l, r')) ↦ absurd (k e)
          | inr (inr (k, l, first, second)) ↦ absurd (k e)
        ],
      )

  differs : (a b : ℕ) → nat_eq a b ≡ false → a ≢ b
  differs a b h e = ground (arith, nat_eq_iff a b)

  to_base :
      (input output : ℕ)
      → nat_eq input base_asset ≡ false
      → nat_eq output base_asset ≡ true
      → Serves (construct_trivial_path env input output) ↔ IsServed input output
  unfolding construct_trivial_path weak_sort_pair
  to_base input output h h' =
      let k = differs input base_asset h in
      let e : output ≡ base_asset = (nat_eq_iff output base_asset).0 h' in
      let both = Serves-pair input output output input (rw (h, h') refl) (rw h refl) e in
      (
        (λ r. inr (inl (k, e, both.0 r))),
        λ r. elim r [
          | inl (e', r') ↦ absurd (k e')
          | inr (inl (k', e', r')) ↦ both.1 r'
          | inr (inr (k', l, first, second)) ↦ absurd (l e)
        ],
      )

  by_way_of_base :
      (input output : ℕ)
      → nat_eq input base_asset ≡ false
      → nat_eq output base_asset ≡ false
      → Serves (construct_trivial_path env input output) ↔ IsServed input output
  unfolding construct_trivial_path
  by_way_of_base input output h h' =
      let k = differs input base_asset h in
      let l = differs output base_asset h' in
      let path : construct_trivial_path env input output ≡ twofold input base_asset output =
        rw (h, h') refl in
      (
        (λ r. let both = subst Serves path r in inr (inr (k, l, both.0, both.1))),
        λ r. elim r [
          | inl (e', r') ↦ absurd (k e')
          | inr (inl (k', e', r')) ↦ absurd (l e')
          | inr (inr (k', l', first, second)) ↦ subst Serves (sym path) (first, second)
        ],
      )

  Serves-IsServed :
      (input output : ℕ) → Serves (construct_trivial_path env input output) ↔ IsServed input output
  Serves-IsServed input output = elim (Bool-cases (nat_eq input base_asset)) [
    | inl h ↦ from_base input output h
    | inr h ↦ elim (Bool-cases (nat_eq output base_asset)) [
      | inl h' ↦ to_base input output h h'
      | inr h' ↦ by_way_of_base input output h h'
    ]
  ]

  -- A path is available exactly when every pair along it has an enabled source: the pair of the
  -- base asset with the input and the one with the output, or the only one of them where the other
  -- asset is the base asset. Exactly then its sources can be listed.
  pub is_path_available_iff :
      (input output : ℕ)
      → ((is_path_available env dex_id input output s ≡ ok true) ↔ IsServed input output)
        × (((ts : Types) × (list_enabled_sources_for_path env dex_id input output s ≡ ok ts))
            ↔ IsServed input output)
  unfolding is_path_available list_enabled_sources_for_path
  is_path_available_iff input output =
      let (available, listed) = along_iff (construct_trivial_path env input output) in
      let served = Serves-IsServed input output in
      (
        ((λ h. served.0 (available.0 h)), (λ r. available.1 (served.1 r))),
        ((λ h. served.0 (listed.0 h)), (λ r. listed.1 (served.1 r))),
      )
