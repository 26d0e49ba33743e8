-- ===== src/Execution.antt =====
-- execution/execution.go: a second ledger of balances that only ExecuteTransfer changes.
pub mod Transfer
use hyperlux_chain.Prelude.{Bool, true, false, if◌then◌else◌}
use hyperlux_chain.Prelude.Int.{ℤ, pos, leb_ℤ}
use hyperlux_chain.Prelude.Word64.{add64, sub64}
use hyperlux_chain.Prelude.Str.{Str, codes}
use hyperlux_chain.Prelude.Dict.{Dict, get, insert}

unfoldable pub init_execution : Dict ℤ → Dict ℤ
init_execution balances = insert (codes "Bob") (pos 50) (insert (codes "Alice") (pos 100) balances)

unfoldable pub execute_transfer : Str → Str → ℤ → Dict ℤ → Bool × Dict ℤ
execute_transfer from to amount balances =
    let debited = insert from (sub64 (get from balances) amount) balances in
    if leb_ℤ amount (get from balances)
    then (true, insert to (add64 (get to debited) amount) debited)
    else (false, balances)
