-- ===== src/Ledger/Slashing/Recipients.antt =====
-- distributeSlashed (ledger/validator.go): what each account and each sink gets of an amount.
use hyperlux_chain.Prelude.{ℕ, ◌+◌, ◌≡◌}
use hyperlux_chain.Prelude.Int.{pos, ◌+ℤ◌}
use hyperlux_chain.Prelude.Str.{Str}
use hyperlux_chain.Prelude.Dict.{get}
use hyperlux_chain.Prelude.Float64.{seventy_percent, fifteen_percent, ten_percent}
use hyperlux_chain.Ledger.Types.{State}
use hyperlux_chain.Ledger.Batch.Refinement.{only_at}
use hyperlux_chain.Ledger.Slashing.Payouts.{part, honest_part, reward, unrewarded, shared, unshared}

-- Where an amount of `n` went: seven tenths are burned, three twentieths go to the treasury, one
-- tenth to the reporter (or the treasury), each cut off, and the rest in shares by stake to the
-- validators but the offender (or the treasury). No other account and no sink gains anything.
pub record Reached (n : ℕ) (reporter offender : Str) (s s' : State) : Type 0 where
  pub burns : s'.burned_supply ≡ s.burned_supply +ℤ pos (part n seventy_percent)
  pub to_treasury :
      s'.treasury_balance
      ≡ s.treasury_balance
        +ℤ pos (
            part n fifteen_percent
            + unrewarded reporter (part n ten_percent)
            + unshared offender (honest_part n) s.validators)
  pub to_account :
      (a : Str)
      → get a s'.balances
        ≡ get a s.balances
          +ℤ only_at reporter a (pos (reward reporter (part n ten_percent)))
          +ℤ pos (shared a offender (honest_part n) s.validators)
