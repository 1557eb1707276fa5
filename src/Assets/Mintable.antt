-- ===== src/Assets/Mintable.antt =====
-- pallets/assets/src/lib.rs: an asset that was set non-mintable stays so, and is minted no more.
use sora2_parachain.Prelude.{
  ℕ, ◌≡◌, refl, ◌≢◌, Bool, false, List, arith, ℤ, eq_ℕ, Option-cases, inl, inr, nat_eq_iff,
}
use sora2_parachain.Common.Result.{ok}
use sora2_parachain.Common.Storage.{insert, get-insert, get-insert_self}
use sora2_parachain.Assets.Defs.{AssetInfo, State, Env}
use sora2_parachain.Assets.Operations.{
  asset_owner, asset_owners, info_of, is_asset_owner, register_asset_id,
}
use sora2_parachain.Assets.Registration.{endow-Keeps}
use sora2_parachain.Assets.Transfers.{
  transfer_from, force_transfer, mint_to, burn_from, update_balance, reserve, unreserve,
  set_non_mintable_from,
}

module _ {S L : Type 0} (env : Env S L) where
  open env use {frame, default_account}

  -- The asset has an owner and is not mintable.
  pub record IsFinal (asset : ℕ) (s : State S L) : Type 0 where
    pub owned : asset_owners env asset s ≢ default_account
    pub not_mintable : (info_of env asset s).is_mintable ≡ false

  -- Calls of the pallet, that of `update_balance` and `reserve` included, and steps of others that
  -- touch only the storage of the currencies, the permissions and the events.
  pub data Step (s : State S L) : State S L → Type 0 where
    register :
        (account asset : ℕ) (symbol name : List ℕ) (precision supply : ℕ) (mintable : Bool)
        → Step s (register_asset_id env account asset symbol name precision supply mintable s).1
    transfer : (asset from to amount : ℕ) → Step s (transfer_from env asset from to amount s).1
    force : (asset from to amount : ℕ) → Step s (force_transfer env asset from to amount s).1
    mint : (asset issuer to amount : ℕ) → Step s (mint_to env asset issuer to amount s).1
    burn : (asset issuer to amount : ℕ) → Step s (burn_from env asset issuer to amount s).1
    update : (asset who : ℕ) (by_amount : ℤ) → Step s (update_balance env asset who by_amount s).1
    hold : (asset who amount : ℕ) → Step s (reserve env asset who amount s).1
    release : (asset who amount : ℕ) → Step s (unreserve env asset who amount s).1
    set_non_mintable : (asset who : ℕ) → Step s (set_non_mintable_from env asset who s).1
    outside :
        {t : State S L} → t.asset_owners ≡ s.asset_owners → t.asset_infos ≡ s.asset_infos → Step s t

  pub data Reach (s : State S L) : State S L → Type 0 where
    here : Reach s s
    next : {t u : State S L} → Reach s t → Step t u → Reach s u

  same-IsFinal :
      (asset : ℕ) (s t : State S L)
      → t.asset_owners ≡ s.asset_owners
      → t.asset_infos ≡ s.asset_infos
      → IsFinal asset s
      → IsFinal asset t
  same-IsFinal asset s t e f h = record { owned = rw e h.owned; not_mintable = rw f h.not_mintable }

  register-IsFinal :
      (a account asset : ℕ) (symbol name : List ℕ) (precision supply : ℕ) (mintable : Bool)
      (s : State S L)
      → IsFinal a s
      → IsFinal a (register_asset_id env account asset symbol name precision supply mintable s).1
  unfolding register_asset_id asset_owner
  register-IsFinal a account asset symbol name precision supply mintable s h =
      let info : AssetInfo = record {
        symbol = symbol;
        name = name;
        precision = precision;
        is_mintable = mintable;
      } in
      elim (Option-cases (frame.inc_consumers account (s.permissions.system))) [
        | inl e ↦ record { owned = ground arith; not_mintable = ground arith }
        | inr (y, e) ↦
            let kept = endow-Keeps env account asset supply (record s {
              permissions = record (s.permissions) { system = y };
              asset_owners = insert s.asset_owners asset account;
              asset_infos = insert s.asset_infos asset info;
            }) in
            record {
              owned =
                  ground
                    (arith, kept, nat_eq_iff asset a, get-insert s.asset_owners asset a account);
              not_mintable =
                  ground (arith, kept, nat_eq_iff asset a, get-insert s.asset_infos asset a info);
            }
      ]

  set-IsFinal :
      (a asset who : ℕ) (s : State S L)
      → IsFinal a s
      → IsFinal a (set_non_mintable_from env asset who s).1
  unfolding set_non_mintable_from
  set-IsFinal a asset who s h =
      let i = info_of env asset s in
      record {
        owned = ground arith;
        not_mintable = ground (
          arith,
          nat_eq_iff asset a,
          get-insert s.asset_infos asset a i,
          get-insert s.asset_infos asset a (record i { is_mintable = false }),
        );
      }

  Step-IsFinal : (a : ℕ) {s t : State S L} → Step s t → IsFinal a s → IsFinal a t
  unfolding transfer_from force_transfer mint_to burn_from update_balance reserve unreserve
  Step-IsFinal a {s} (register account asset symbol name precision supply mintable) h =
      register-IsFinal a account asset symbol name precision supply mintable s h
  Step-IsFinal a {s} (transfer asset from to amount) h =
      same-IsFinal a s (transfer_from env asset from to amount s).1 (ground arith) (ground arith) h
  Step-IsFinal a {s} (force asset from to amount) h =
      same-IsFinal a s (force_transfer env asset from to amount s).1 refl refl h
  Step-IsFinal a {s} (mint asset issuer to amount) h =
      same-IsFinal a s (mint_to env asset issuer to amount s).1 (ground arith) (ground arith) h
  Step-IsFinal a {s} (burn asset issuer to amount) h =
      same-IsFinal a s (burn_from env asset issuer to amount s).1 (ground arith) (ground arith) h
  Step-IsFinal a {s} (update asset who by_amount) h =
      same-IsFinal a s (update_balance env asset who by_amount s).1 (ground arith) (ground arith) h
  Step-IsFinal a {s} (hold asset who amount) h =
      same-IsFinal a s (reserve env asset who amount s).1 (ground arith) (ground arith) h
  Step-IsFinal a {s} (release asset who amount) h =
      same-IsFinal a s (unreserve env asset who amount s).1 (ground arith) (ground arith) h
  Step-IsFinal a {s} (set_non_mintable asset who) h = set-IsFinal a asset who s h
  Step-IsFinal a {s} (outside {t} e f) h = same-IsFinal a s t e f h

  Reach-IsFinal : (a : ℕ) {s t : State S L} → IsFinal a s → Reach s t → IsFinal a t
  Reach-IsFinal a h here = h
  Reach-IsFinal a h (next r st) = Step-IsFinal a st (Reach-IsFinal a h r)

  -- Once the owner has set an asset non-mintable, no call of `mint_to` for it succeeds or touches
  -- the currencies, in any state that the calls of the pallet reach from there.
  pub set_non_mintable-final :
      (asset who issuer to amount : ℕ) (s : State S L) {t : State S L}
      → (set_non_mintable_from env asset who s).0 ≡ ok tt
      → Reach (set_non_mintable_from env asset who s).1 t
      → ((mint_to env asset issuer to amount t).0 ≢ ok tt)
        × ((mint_to env asset issuer to amount t).1 ≡ t)
  unfolding set_non_mintable_from mint_to is_asset_owner
  set_non_mintable-final asset who issuer to amount s {t} h r =
      let first : IsFinal asset (set_non_mintable_from env asset who s).1 = record {
        owned = ground arith;
        not_mintable = ground (
          arith,
          get-insert_self s.asset_infos asset
              (record (info_of env asset s) { is_mintable = false }),
        );
      } in
      let last = Reach-IsFinal asset first r in (ground arith, ground arith)
