-- ===== src/Common/Primitives.antt =====
-- common/src/primitives.rs: DEX infos, trading pairs, liquidity sources and technical accounts.
-- Identifiers are only compared, so they are numbers.
use sora2_parachain.Prelude.{
  ℕ, zero, suc, refl, sym, ap, ◌∙◌, ◌≡◌, ◌↔◌, Bool, true, false, ◌&&◌, Option, none, some, List, [],
  ◌∷◌, arith, Eq, nat_eq, nat_eq_iff,
}

pub record DexInfo : Type 0 where
  pub base_asset_id : ℕ
  pub is_public : Bool

pub record TradingPair : Type 0 where
  pub base_asset_id : ℕ
  pub target_asset_id : ℕ

abbrev pub pair_beq : TradingPair → TradingPair → Bool
pair_beq p q = nat_eq p.base_asset_id q.base_asset_id && nat_eq p.target_asset_id q.target_asset_id

pub pair_beq_iff : (p q : TradingPair) → (pair_beq p q ≡ true) ↔ (p ≡ q)
pair_beq_iff p q = ground (
  arith,
  nat_eq_iff p.base_asset_id q.base_asset_id,
  nat_eq_iff p.target_asset_id q.target_asset_id,
)

instance abbrev pub eq_trading_pair : Eq TradingPair
eq_trading_pair = record { same = pair_beq; same_iff = pair_beq_iff }

pub data LiquiditySourceType : Type 0 where
  xyk_pool bonding_curve_pool multicollateral_bonding_curve_pool : LiquiditySourceType
  mock_pool mock_pool2 mock_pool3 mock_pool4 : LiquiditySourceType

-- The `#[repr(u8)]` of a source, by which sources are compared.
abbrev pub source_index : LiquiditySourceType → ℕ
source_index xyk_pool = 0
source_index bonding_curve_pool = 1
source_index multicollateral_bonding_curve_pool = 2
source_index mock_pool = 3
source_index mock_pool2 = 4
source_index mock_pool3 = 5
source_index mock_pool4 = 6

abbrev pub source_beq : LiquiditySourceType → LiquiditySourceType → Bool
source_beq a b = nat_eq (source_index a) (source_index b)

-- The source of an index.
source_of : ℕ → LiquiditySourceType
source_of zero = xyk_pool
source_of (suc zero) = bonding_curve_pool
source_of (suc (suc zero)) = multicollateral_bonding_curve_pool
source_of (suc (suc (suc zero))) = mock_pool
source_of (suc (suc (suc (suc zero)))) = mock_pool2
source_of (suc (suc (suc (suc (suc zero))))) = mock_pool3
source_of (suc (suc (suc (suc (suc (suc n)))))) = mock_pool4

source_of-source_index : (a : LiquiditySourceType) → source_of (source_index a) ≡ a
unfolding source_of
source_of-source_index xyk_pool = refl
source_of-source_index bonding_curve_pool = refl
source_of-source_index multicollateral_bonding_curve_pool = refl
source_of-source_index mock_pool = refl
source_of-source_index mock_pool2 = refl
source_of-source_index mock_pool3 = refl
source_of-source_index mock_pool4 = refl

pub source_beq_iff : (a b : LiquiditySourceType) → (source_beq a b ≡ true) ↔ (a ≡ b)
source_beq_iff a b = (
  (λ h.
      sym (source_of-source_index a)
      ∙ ap source_of ((nat_eq_iff (source_index a) (source_index b)).0 h)
      ∙ source_of-source_index b),
  (λ e. (nat_eq_iff (source_index a) (source_index b)).1 (ap source_index e)),
)

instance abbrev pub eq_source : Eq LiquiditySourceType
eq_source = record { same = source_beq; same_iff = source_beq_iff }

pub data FilterMode : Type 0 where
  disabled forbid_selected allow_selected : FilterMode

pub data ManagementMode : Type 0 where
  private_mode public_mode : ManagementMode

abbrev pub is_public_mode : ManagementMode → Bool
is_public_mode public_mode = true
is_public_mode private_mode = false

-- `LiquiditySourceId`
pub record LiquiditySourceId (I : Type 0) : Type 0 where
  pub dex_id : ℕ
  pub liquidity_source_index : I

pub data TechPurpose : Type 0 where
  fee_collector : TechPurpose
  fee_collector_for_pair liquidity_keeper : TradingPair → TechPurpose
  identifier : List ℕ → TechPurpose

pub data TechAccountId : Type 0 where
  pure_account : ℕ → TechPurpose → TechAccountId
  generic : List ℕ → List ℕ → TechAccountId
  wrapped wrapped_repr : ℕ → TechAccountId

pub data AssetIdExtraAssetRecordArg : Type 0 where
  of_dex_id : ℕ → AssetIdExtraAssetRecordArg
  of_lst_id : LiquiditySourceType → AssetIdExtraAssetRecordArg
  of_account_id : ℕ → AssetIdExtraAssetRecordArg

abbrev pub bytes_eq : List ℕ → List ℕ → Bool
bytes_eq [] [] = true
bytes_eq (x ∷ xs) (y ∷ ys) = nat_eq x y && bytes_eq xs ys
bytes_eq _ _ = false

abbrev pub purpose_eq : TechPurpose → TechPurpose → Bool
purpose_eq fee_collector fee_collector = true
purpose_eq (fee_collector_for_pair p) (fee_collector_for_pair q) = pair_beq p q
purpose_eq (liquidity_keeper p) (liquidity_keeper q) = pair_beq p q
purpose_eq (identifier a) (identifier b) = bytes_eq a b
purpose_eq _ _ = false

abbrev pub tech_account_eq : TechAccountId → TechAccountId → Bool
tech_account_eq (pure_account d p) (pure_account e q) = nat_eq d e && purpose_eq p q
tech_account_eq (generic a b) (generic c d) = bytes_eq a c && bytes_eq b d
tech_account_eq (wrapped a) (wrapped b) = nat_eq a b
tech_account_eq (wrapped_repr a) (wrapped_repr b) = nat_eq a b
tech_account_eq _ _ = false

-- The fee account of the account that keeps the liquidity of a pair.
unfoldable pub to_fee_account : TechAccountId → Option TechAccountId
to_fee_account (pure_account dex (liquidity_keeper pair)) =
    some (pure_account dex (fee_collector_for_pair pair))
to_fee_account _ = none

unfoldable pub to_tech_unit_from_dex_and_trading_pair : ℕ → TradingPair → TechAccountId
to_tech_unit_from_dex_and_trading_pair dex pair = pure_account dex (liquidity_keeper pair)

pub data Origin : Type 0 where
  signed : ℕ → Origin
  root unsigned : Origin
