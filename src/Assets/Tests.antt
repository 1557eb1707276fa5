-- ===== src/Assets/Tests.antt =====
-- Runs of pallets/assets/src/lib.rs, and its theorems at concrete states.
use sora2_parachain.Prelude.{
  ℕ, ◌+◌, ◌≤◌, List, ◌≡◌, ◌≢◌, ◌⊎◌, refl, true, none, some, [], ◌∷◌, arith, eq_ℕ, eq_pair,
}
use sora2_parachain.Common.Errors.{DispatchError}
use sora2_parachain.Common.Result.{ok, err}
use sora2_parachain.Common.Storage.{get}
use sora2_parachain.Common.FrameSystem.{counting}
use sora2_parachain.Common.Currency.{Sheet, sheet_currency}
use sora2_parachain.Permissions.Defs.{
  limited, unlimited, eq_scope, permit, forbid, contains, transfer_id,
}
use sora2_parachain.Permissions.Invariant.{IsValid}
use sora2_parachain.Permissions
use sora2_parachain.Assets.Defs.{State, Env, is_symbol_valid, is_name_valid}
use sora2_parachain.Assets.Operations.{
  ensure_asset_exists, in_currency, asset_owner, is_asset_owner, gen_asset_id, register_from,
}
use sora2_parachain.Assets.Transfers.{transfer_from, mint_to, set_non_mintable_from}
use sora2_parachain.Assets.Authority.{transfer-limited_prohibition}
use sora2_parachain.Assets.Registration.{register_from_lem}
use sora2_parachain.Assets.Mintable.{Reach, Step, set_non_mintable-final}

abbrev alice : ℕ
alice = 1

abbrev xor : ℕ
xor = 200

abbrev xor_name : List ℕ
xor_name = b'X' ∷ b'O' ∷ b'R' ∷ []

abbrev token_name : List ℕ
token_name = b'T' ∷ b'O' ∷ b'K' ∷ []

abbrev simple : Env ℕ Sheet
simple = record {
  frame = counting;
  money = sheet_currency;
  hash = λ a. a;
  digest_id = λ account nonce. account + nonce;
  record_id = λ r. 77;
  default_account = 0;
}

abbrev empty_permissions : Permissions.Defs.State ℕ
empty_permissions = record {
  owners = [];
  modes = (1, forbid) ∷ (2, permit) ∷ (3, permit) ∷ [];
  permissions = ((alice, unlimited), 2 ∷ []) ∷ ((alice, limited xor), 1 ∷ []) ∷ [];
  system = 4;
  events = [];
}

-- Alice, who has 50 of one asset, owns it, may mint everywhere, and may not transfer it.
abbrev sample : State ℕ Sheet
sample = record {
  permissions = empty_permissions;
  asset_owners = (xor, alice) ∷ [];
  asset_infos =
      (xor, record { symbol = xor_name; name = xor_name; precision = 18; is_mintable = true }) ∷ [];
  asset_records = [];
  currency = λ asset who. 50;
  events = [];
}

sample-IsValid : IsValid empty_permissions
sample-IsValid who sc = ground arith

transfer-limited_prohibition_example :
    transfer_from simple xor alice 2 30 sample
    ≡ in_currency simple (simple.money.transfer xor alice 2 30) sample
unfolding ensure_asset_exists contains
transfer-limited_prohibition_example =
    transfer-limited_prohibition simple xor alice 2 30 sample sample-IsValid refl refl refl

register_from_lem_example :
    let (r, t) = register_from simple alice token_name token_name 18 5 true sample in
    let asset = gen_asset_id simple alice sample in
    ((e : DispatchError) × (r ≡ err e)) × (t ≡ sample)
    ⊎ (r ≡ ok asset)
      × (asset_owner simple asset sample ≡ none)
      × (is_symbol_valid token_name ≡ true)
      × (is_name_valid token_name ≡ true)
      × (18 ≤ 18)
      × (get t.asset_owners asset ≡ some alice)
      × (get t.asset_infos asset
          ≡ some (record {
            symbol = token_name;
            name = token_name;
            precision = 18;
            is_mintable = true;
          }))
register_from_lem_example = register_from_lem simple alice token_name token_name 18 5 true sample

abbrev final : State ℕ Sheet
final = (set_non_mintable_from simple xor alice sample).1

set_non_mintable-final_example :
    ((mint_to simple xor alice 2 7 (mint_to simple xor alice 2 7 final).1).0 ≢ ok tt)
    × ((mint_to simple xor alice 2 7 (mint_to simple xor alice 2 7 final).1).1
        ≡ (mint_to simple xor alice 2 7 final).1)
unfolding set_non_mintable_from is_asset_owner
set_non_mintable-final_example =
    set_non_mintable-final simple xor alice alice 2 7 sample refl
      (Reach.next Reach.here (Step.mint xor alice 2 7))
