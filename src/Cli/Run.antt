-- ===== src/Cli/Run.antt =====
-- `RunCLI` (cli/cli.go): a whole run.
use hyperlux_chain.Prelude.{Option, none, some, List, [], ◌∷◌}
use hyperlux_chain.Prelude.Str.{Str}
use hyperlux_chain.Ledger.Storage.{load_all_data}
use hyperlux_chain.Cli.{Libraries, Inputs, Machine, Exit, returned, with_ledger, new_process}
use hyperlux_chain.Cli.Args.{
  Command, init_command, start_command, tx_command, tx_bulk_command,
  tx_bulk_random_parallel_command, tx_bulk_multi_command, stress_test_command, auto_commit_command,
  stress_and_commit_command, wallet_bulk_command, metrics_command, commit_command, airdrop_command,
  fix_validators_command, full_test_command, validator_status_command, suspend_command,
  slash_command, show_econ_command, command_of,
}
use hyperlux_chain.Cli.Spam.{
  ledger_of, handle_tx, handle_tx_bulk, handle_tx_bulk_random_parallel, handle_tx_bulk_multi,
}
use hyperlux_chain.Cli.Handlers.{
  ensure_validators_ready, handle_init, handle_commit, handle_airdrop, handle_fix_validators,
  handle_wallet_bulk, handle_suspend, handle_slash,
}
use hyperlux_chain.Cli.Rounds.{handle_stress_test}

-- The commands that start goroutines beside the run, or do not end, give `none`: their rounds are
-- in Cli/Rounds.
unfoldable pub run_command : Libraries → Inputs → Command → List Str → Machine → Option Exit
unfolding handle_tx handle_tx_bulk handle_tx_bulk_random_parallel handle_tx_bulk_multi handle_init
    handle_commit handle_airdrop handle_fix_validators handle_wallet_bulk handle_suspend
    handle_slash handle_stress_test ensure_validators_ready
run_command lib inp init_command args m = some (handle_init lib inp m)
run_command lib inp tx_command args m = some (handle_tx lib args m)
run_command lib inp tx_bulk_command args m = some (handle_tx_bulk lib args m)
run_command lib inp tx_bulk_random_parallel_command args m =
    some (handle_tx_bulk_random_parallel lib inp args m)
run_command lib inp tx_bulk_multi_command args m = some (handle_tx_bulk_multi lib inp args m)
run_command lib inp stress_test_command args m = some (handle_stress_test lib inp args m)
run_command lib inp wallet_bulk_command args m = some (handle_wallet_bulk lib inp args m)
run_command lib inp metrics_command args m = some (returned m)
run_command lib inp commit_command args m = some (handle_commit lib inp m)
run_command lib inp airdrop_command args m = some (handle_airdrop lib args m)
run_command lib inp fix_validators_command args m = some (handle_fix_validators lib inp m)
run_command lib inp validator_status_command [] m = some (returned m)
run_command lib inp validator_status_command (addr ∷ more) m =
    some (returned (ensure_validators_ready lib m))
run_command lib inp suspend_command args m = some (handle_suspend lib inp args m)
run_command lib inp slash_command args m = some (handle_slash lib inp args m)
run_command lib inp show_econ_command args m = some (returned m)
run_command lib inp start_command args m = none
run_command lib inp auto_commit_command args m = none
run_command lib inp stress_and_commit_command args m = none
run_command lib inp full_test_command args m = none

unfoldable pub run_named : Libraries → Inputs → Option Command → List Str → Machine → Option Exit
unfolding run_command
run_named lib inp none args m = some (returned m)
run_named lib inp (some c) args m = run_command lib inp c args m

-- A new process loads everything first.
abbrev pub load_new_process : Machine → Machine
load_new_process m =
    let fresh = new_process m in with_ledger fresh (load_all_data (ledger_of fresh))

-- The arguments begin with the program's name.
unfoldable pub run_cli : Libraries → Inputs → List Str → Machine → Option Exit
unfolding run_named load_all_data command_of
run_cli lib inp [] m = some (returned (new_process m))
run_cli lib inp (program ∷ []) m = some (returned (new_process m))
run_cli lib inp (program ∷ cmd ∷ args) m =
    run_named lib inp (command_of cmd) args (load_new_process m)
