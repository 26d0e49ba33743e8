-- ===== src/Ledger/Startup.antt =====
-- ledger/ledger.go: starting the ledger, and the calls that read and change one balance.
pub mod Restart
use hyperlux_chain.Prelude.{[], ◌∷◌, is_empty, if◌then◌else◌}
use hyperlux_chain.Prelude.Int.{ℤ}
use hyperlux_chain.Prelude.Word64.{add64}
use hyperlux_chain.Prelude.Str.{Str}
use hyperlux_chain.Prelude.Dict.{get, insert}
use hyperlux_chain.Primitives.{Primitives}
use hyperlux_chain.Ledger.Types.{State, empty_state}
use hyperlux_chain.Ledger.Storage.{load_all_data, save_blockchain, save_balances}
use hyperlux_chain.Ledger.Block.{genesis}

-- The argument is the clock reading of the genesis block, if one is made.
unfoldable pub init_ledger : Primitives → ℤ → State → State
unfolding load_all_data save_blockchain
init_ledger c now s =
    let loaded = load_all_data s in
    if is_empty loaded.blockchain
    then save_blockchain (record loaded { blockchain = genesis c now ∷ [] })
    else loaded

unfoldable pub get_balance : Str → State → ℤ
get_balance addr s = get addr s.balances

unfoldable pub airdrop : Str → ℤ → State → State
unfolding save_balances
airdrop addr amount s =
    save_balances
      (record s { balances = insert addr (add64 (get addr s.balances) amount) s.balances })

-- The process ends, and a new one starts over what is in the store. Every command's process begins
-- with LoadAllData (RunCLI in cli/cli.go).
abbrev pub reopen : State → State
reopen s = load_all_data (record empty_state { disk = s.disk })

-- The same where the new process runs the command `init`, whose InitLedger loads the store too.
abbrev pub restart : Primitives → ℤ → State → State
restart c now s = init_ledger c now (record empty_state { disk = s.disk })
