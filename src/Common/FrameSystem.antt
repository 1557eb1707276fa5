-- ===== src/Common/FrameSystem.antt =====
-- The third-party pallet `frame_system`, as far as the pallets call it: the reference counters and
-- the nonce of an account. Its storage `S` and its calls are parameters.
use sora2_parachain.Prelude.{ℕ, ◌+◌, Option, some}
use Prim.Native.Nat.{pred}
use sora2_parachain.Common.Errors.{DispatchError}
use sora2_parachain.Common.Effects.{Effect, pure, raise}
use sora2_parachain.Common.Primitives.{Origin, signed, root, unsigned}

pub record FrameSystem (S : Type 0) : Type 0 where
  -- `none` is an error of `inc_consumers`.
  pub inc_consumers : ℕ → S → Option S
  pub dec_consumers : ℕ → S → S
  pub inc_providers : ℕ → S → S
  pub account_nonce : ℕ → S → ℕ
  pub inc_account_nonce : ℕ → S → S

-- A system that counts the references of all accounts together, and refuses none.
abbrev pub counting : FrameSystem ℕ
counting = record {
  inc_consumers = λ a s. some (s + 1);
  dec_consumers = λ a s. pred s;
  inc_providers = λ a s. s + 1;
  account_nonce = λ a s. s;
  inc_account_nonce = λ a s. s + 1;
}

abbrev pub ensure_signed : {S : Type 0} → Origin → Effect S ℕ
ensure_signed (signed who) = pure who
ensure_signed root = raise DispatchError.bad_origin
ensure_signed unsigned = raise DispatchError.bad_origin
