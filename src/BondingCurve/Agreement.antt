-- ===== src/BondingCurve/Agreement.antt =====
-- pallets/bonding-curve-pool/src/lib.rs: what an exchange that fails leaves behind, and how the outcome
-- of a sale lies to its quote.
use sora2_parachain.Prelude.{if◌then◌else◌, Bool, ℕ, ◌≤◌, ◌≡◌, true, false, not, ◌&&◌, nat_eq}
use sora2_parachain.Common.Result.{ok, err}
use sora2_parachain.Common.Result
use sora2_parachain.Common.Errors.{DispatchError, cant_exchange, cant_exchange_on_itself}
use sora2_parachain.Common.Effects.{
  ◌>>◌, Effect, Atomic, with_transaction-Atomic, reads-Atomic, require-Atomic, require,
}
use sora2_parachain.Common.SwapAmounts.{SwapAmount, SwapOutcome}
use sora2_parachain.Assets.Transfers.{burn_from, total_balance}
use sora2_parachain.Assets
use sora2_parachain.Technical
use sora2_parachain.Technical.{transfer_out, tech_account_id_to_account_id}
use sora2_parachain.BondingCurve.Defs.{failed, State, Env}
use sora2_parachain.BondingCurve.Reserves.{new, swap}
use sora2_parachain.BondingCurve.Trades.{sell_main_asset, buy_main_asset, can_exchange, exchange}

module _ {S L R : Type 0} (env : Env S L R) where
  open env use {technical_env, base_asset}
  open technical_env use {assets_env}

  purchase-Atomic :
      (input output : ℕ) (amount : SwapAmount ℕ) (from to : ℕ)
      → Atomic (buy_main_asset env input output amount from to)
  unfolding swap
  purchase-Atomic input output amount from to =
      reads-Atomic (new env input output amount from to) (swap env) λ b. with_transaction-Atomic _

  sale-Atomic :
      (input output : ℕ) (amount : SwapAmount ℕ) (from to : ℕ)
      → Atomic (sell_main_asset env input output amount from to)
  unfolding sell_main_asset
  sale-Atomic input output amount from to = with_transaction-Atomic _

  abbrev trade : Bool → ℕ → ℕ → SwapAmount ℕ → ℕ → ℕ → Effect (State S L R) (SwapOutcome ℕ)
  trade b input output amount from to =
      if b
      then sell_main_asset env input output amount from to
      else buy_main_asset env input output amount from to

  abbrev tested : ℕ → ℕ → ℕ → ℕ → ℕ → SwapAmount ℕ → Effect (State S L R) (SwapOutcome ℕ)
  tested sender receiver dex input output amount =
      require (can_exchange env dex input output) (failed cant_exchange)
      >> trade (nat_eq input base_asset) input output amount sender receiver

  trade-Atomic :
      (b : Bool) (input output : ℕ) (amount : SwapAmount ℕ) (from to : ℕ)
      → Atomic (trade b input output amount from to)
  trade-Atomic true input output amount from to = sale-Atomic input output amount from to
  trade-Atomic false input output amount from to = purchase-Atomic input output amount from to

  -- An exchange that fails changes nothing, whatever the gateway that it calls does.
  pub exchange-atomic :
      (sender receiver dex input output : ℕ) (amount : SwapAmount ℕ) (s : State S L R)
      {e : DispatchError} {s' : State S L R}
      → exchange env sender receiver dex input output amount s ≡ (err e, s')
      → s' ≡ s
  unfolding exchange
  exchange-atomic sender receiver dex input output amount s h =
      reads-Atomic (λ s. tech_account_id_to_account_id technical_env s.reserves_acc)
        (λ reserves.
          require (not (nat_eq sender reserves && nat_eq receiver reserves))
            (failed cant_exchange_on_itself)
          >> tested sender receiver dex input output amount)
        (λ reserves.
          require-Atomic (not (nat_eq sender reserves && nat_eq receiver reserves))
            (failed cant_exchange_on_itself) (tested sender receiver dex input output amount)
            (require-Atomic (can_exchange env dex input output) (failed cant_exchange)
              (trade (nat_eq input base_asset) input output amount sender receiver)
              (trade-Atomic (nat_eq input base_asset) input output amount sender receiver)))
        s _ _ h

  -- The storage after a sale of `amount` of `input` that paid `paid` of `output`: the reserves, which
  -- had the amount, paid it to `to`, what was sold was burned from `from`, and nothing else changed.
  abbrev pub IsSold : ℕ → ℕ → ℕ → ℕ → ℕ → ℕ → State S L R → State S L R → Type 0
  IsSold input output from to amount paid s s' =
      (reserves held : ℕ) × (t : Technical.State S L) × (a : Assets.Defs.State S L)
      × (tech_account_id_to_account_id technical_env s.reserves_acc ≡ ok reserves)
      × (total_balance assets_env output reserves s.technical.assets ≡ ok held)
      × (paid ≤ held)
      × (transfer_out technical_env output s.reserves_acc to paid s.technical ≡ (ok tt, t))
      × (burn_from assets_env input reserves from amount t.assets ≡ (ok tt, a))
      × (s' ≡ record s { technical = record t { assets = a } })
