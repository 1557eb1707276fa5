-- ===== src/Technical/Laws.antt =====
-- pallets/technical/src/lib.rs: registration of technical accounts and transfers through them.
use sora2_parachain.Prelude.{
  ℕ, ◌≡◌, ◌∙◌, ◌||◌, List, [], ◌∷◌, none, some, arith, eq_ℕ, ◌⊎◌, inl, inr, if◌then◌else◌,
}
use sora2_parachain.Common.Errors.{TechnicalError}
use sora2_parachain.Common.Result.{ok, err}
use sora2_parachain.Common.Storage.{get, get-insert, get-insert_self, contains_key, is_some}
use sora2_parachain.Common.Primitives.{TechAccountId}
use sora2_parachain.Technical.{
  State, Env, failed, tech_account_id_to_account_id, ensure_tech_account_registered,
  register_tech_account_id_if_not_exist, transfer, genesis_build, set_tech_account, inc_providers,
}

module _ {S L : Type 0} (env : Env S L) where
  -- Where the representation of a technical account decodes, its registration succeeds, leaves the
  -- account registered, does not replace what was registered for it before, and touches no balance.
  pub register_if_not_exist_lem :
      (tech : TechAccountId) (account : ℕ) (s : State S L)
      → tech_account_id_to_account_id env tech ≡ ok account
      → let (r, t) = register_tech_account_id_if_not_exist env tech s in
        (r ≡ ok tt)
        × (ensure_tech_account_registered env tech t ≡ ok tt)
        × (get t.tech_accounts account ≡ (
            if is_some (get s.tech_accounts account)
            then get s.tech_accounts account
            else some tech))
        × (t.assets.currency ≡ s.assets.currency)
  unfolding register_tech_account_id_if_not_exist ensure_tech_account_registered
  register_if_not_exist_lem tech account s e =
      ground (arith, get-insert_self s.tech_accounts account tech)

  -- A transfer between technical accounts of which one is not registered changes nothing.
  pub transfer-unregistered :
      (asset amount from to : ℕ) (tech_source tech_dest : TechAccountId) (s : State S L)
      → tech_account_id_to_account_id env tech_source ≡ ok from
      → tech_account_id_to_account_id env tech_dest ≡ ok to
      → (get s.tech_accounts from ≡ none) ⊎ (get s.tech_accounts to ≡ none)
      → transfer env asset tech_source tech_dest amount s
        ≡ (err (failed TechnicalError.tech_account_id_is_not_registered), s)
  unfolding transfer
  transfer-unregistered asset amount from to tech_source tech_dest s e f (inl missing) =
      ground arith
  transfer-unregistered asset amount from to tech_source tech_dest s e f (inr missing) =
      ground arith

  -- An account is registered after the genesis exactly if it was before or the genesis lists it.
  pub genesis_build_iff :
      (account : ℕ) (entries : List (ℕ × TechAccountId)) (s : State S L)
      → is_some (get (genesis_build env entries s).tech_accounts account)
        ≡ (is_some (get s.tech_accounts account) || contains_key entries account)
  unfolding genesis_build
  genesis_build_iff account [] s = ground arith
  genesis_build_iff account ((a, t) ∷ rest) s =
      let s' = (set_tech_account env a t (inc_providers env a s).1).1 in
      genesis_build_iff account rest s' ∙ ground (arith, get-insert s.tech_accounts a account t)
