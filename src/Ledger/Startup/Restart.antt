-- ===== src/Ledger/Startup/Restart.antt =====
-- What a new process does not find again: LoadAllData and SaveAllData (ledger/ledger.go) leave the
-- suspensions, the treasury and the burned supply out.
use hyperlux_chain.Prelude.Float64.{Float64}
use hyperlux_chain.Prelude.Str.{Str}
