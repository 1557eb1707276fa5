-- ===== src/Xyk/Bounds.antt =====
-- pallets/pool-xyk/src/bounds.rs: an amount that is wanted, calculated, limited or left open.
use sora2_parachain.Prelude.{ℕ, Bool, true, false, ◌&&◌, ◌||◌, Option, none, some, leb, nat_eq}

pub data Bounds : Type 0 where
  calculated desired : ℕ → Bounds
  min max : ℕ → Bounds
  range_from_desired_to_min : ℕ → ℕ → Bounds
  decide dummy : Bounds

-- `impl From<Bounds<Balance>> for Option<Balance>`
unfoldable pub to_option : Bounds → Option ℕ
to_option (calculated a) = some a
to_option (desired a) = some a
to_option (range_from_desired_to_min a b) = some a
to_option _ = none

-- `unwrap`; `none` is the panic of `unreachable!`.
unfoldable pub unwrap : Bounds → Option ℕ
unwrap (calculated a) = some a
unwrap (desired a) = some a
unwrap (range_from_desired_to_min a b) = some a
unwrap _ = none

abbrev pub same_amount : Option ℕ → ℕ → Bool
same_amount none b = false
same_amount (some a) b = nat_eq a b

abbrev pub meets : Bounds → Option ℕ → Bool
meets _ none = false
meets (min a) (some b) = leb a b
meets (max a) (some b) = leb b a
meets (range_from_desired_to_min a b) (some c) = leb c a && leb c b
meets (calculated a) (some b) = nat_eq a b
meets (desired a) (some b) = nat_eq a b
meets decide (some b) = false
meets dummy (some b) = false

unfoldable pub meets_the_boundaries : Bounds → Bounds → Bool
unfolding to_option
meets_the_boundaries b rhs = meets b (to_option rhs)

unfoldable pub meets_the_boundaries_mutally : Bounds → Bounds → Bool
unfolding meets_the_boundaries
meets_the_boundaries_mutally b rhs = meets_the_boundaries b rhs || meets_the_boundaries rhs b

abbrev pub is_dummy : Bounds → Bool
is_dummy dummy = true
is_dummy _ = false
