-- ===== src/Tests/Slashes.antt =====
-- The theorems about slashing, suspension and transfers at concrete inputs.
use hyperlux_chain.Prelude.{◌^◌, ◌*◌, ◌≡◌, not, ◌&&◌, ite, [], ◌∷◌, arith}
use hyperlux_chain.Prelude.Int.{ℤ, pos, leb_ℤ, ◌+ℤ◌, ◌<ℤ◌}
use hyperlux_chain.Prelude.Str.{Str, codes, Str_discrete}
use hyperlux_chain.Ledger.Types.{State}
use hyperlux_chain.Ledger.Slashing.{slash_single}
use hyperlux_chain.Ledger.Slashing.Single.{Taken, slash_single-Taken}
use hyperlux_chain.Ledger.Types.{scope_vote, scope_all}
use hyperlux_chain.Ledger.Validators.{is_suspended, suspend_validator, unix, scope_bars}
use hyperlux_chain.Ledger.Validators.Suspension.{is_suspended-suspend_validator}
use hyperlux_chain.Prelude.Dict.{Dict, IsSolvent, total}
use hyperlux_chain.Execution.{execute_transfer}
use hyperlux_chain.Execution.Transfer.{execute_transfer-total}
use hyperlux_chain.Tests.Setup.{evaluation, alice, bob, ledger}

abbrev carol : Str
carol = codes "carol"

-- Two validators of unequal stake beside the offender.
abbrev staked : State
staked = record ledger {
  validators =
      record { address = alice; stake = pos 900 }
      ∷ record { address = bob; stake = pos 100 }
      ∷ record { address = carol; stake = pos 500 }
      ∷ [];
}

slash_single-Taken_example : Taken carol (pos 700) staked (slash_single carol (pos 700) staked)
slash_single-Taken_example =
    slash_single-Taken carol (pos 700) staked (omega arith)
      ((omega arith, omega arith), ((omega arith, omega arith), ((omega arith, omega arith), tt)))

is_suspended-suspend_validator_example :
    is_suspended
      (pos (7 * 10 ^ 9))
      bob
      scope_vote
      (suspend_validator (pos (5 * 10 ^ 9)) bob scope_all (pos (3 * 10 ^ 9)) staked)
    ≡ ite
        (Str_discrete bob bob)
        (not (leb_ℤ (unix (pos (5 * 10 ^ 9) +ℤ pos (3 * 10 ^ 9))) (unix (pos (7 * 10 ^ 9))))
          && scope_bars scope_all scope_vote)
        (is_suspended (pos (7 * 10 ^ 9)) bob scope_vote staked)
is_suspended-suspend_validator_example =
    is_suspended-suspend_validator (pos (5 * 10 ^ 9)) bob scope_all (pos (3 * 10 ^ 9)) staked
      (pos (7 * 10 ^ 9)) bob scope_vote

abbrev purse : Dict ℤ
purse = (alice, pos 100) ∷ (bob, pos 50) ∷ []

small_purse : total purse <ℤ pos (2 ^ 63)
unfolding evaluation
small_purse = omega arith

execute_transfer-total_example :
    IsSolvent (execute_transfer alice bob (pos 30) purse).1
    × (total (execute_transfer alice bob (pos 30) purse).1 ≡ total purse)
execute_transfer-total_example =
    execute_transfer-total alice bob (pos 30) purse (omega arith, (omega arith, tt)) small_purse
      (omega arith)
