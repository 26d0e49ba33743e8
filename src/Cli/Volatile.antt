-- ===== src/Cli/Volatile.antt =====
-- The commands of cli/cli.go that leave nothing behind.
mod Untouched
mod Sending
use hyperlux_chain.Prelude.{
  ℕ, zero, suc, ◌≡◌, refl, subst, ◌∙◌, inl, inr, Bool, true, false, Option, none, some, List, [],
  ◌∷◌, arith, Option-cases, if◌then◌else◌,
}
use mathlib.Core.Option.{some-injective}
use hyperlux_chain.Prelude.Int.{ℤ, pos, pos_part}
use hyperlux_chain.Prelude.Str.{Str}
use hyperlux_chain.Primitives.{Primitives}
use hyperlux_chain.Ledger.Types.{State, Disk, Wallet, Transaction, SuspensionScope}
use hyperlux_chain.Ledger.Transaction.{
  Ingest, accepted, insufficient_balance, invalid_signature, invalid_nonce,
  validate_and_add_to_mempool, ingest_signed, new_transaction,
}
use hyperlux_chain.Ledger.Storage.{
  load_all_data, load_balances, load_blockchain, load_mempool, load_nonce_table, load_validators,
}
use hyperlux_chain.Ledger.Validators.{suspend_validator, get_or_create_runtime}
use hyperlux_chain.Ledger.ValidatorFiles.{auto_load_validator_wallets}
use hyperlux_chain.Wallet.{load_wallet}
use hyperlux_chain.Cli.{
  Libraries, Inputs, Machine, Exit, returned, fatal, panicked, machine_of, with_ledger, new_process,
}
use hyperlux_chain.Cli.Args.{
  Command, init_command, start_command, tx_command, tx_bulk_command,
  tx_bulk_random_parallel_command, tx_bulk_multi_command, stress_test_command, auto_commit_command,
  stress_and_commit_command, wallet_bulk_command, metrics_command, commit_command, airdrop_command,
  fix_validators_command, full_test_command, validator_status_command, suspend_command,
  slash_command, show_econ_command, command_of, atoi, parse_scope,
}
use hyperlux_chain.Cli.Spam.{
  ledger_of, ingested, send, end_sent, send_times, spam, end_spam, handle_tx, handle_tx_bulk,
  handle_tx_bulk_random_parallel, handle_tx_bulk_multi,
}
use hyperlux_chain.Cli.Handlers.{ensure_validators_ready, handle_suspend}
use hyperlux_chain.Cli.Run.{run_command, run_named, load_new_process, run_cli}
use hyperlux_chain.Cli.Volatile.Untouched.{
  IsUntouched, new_process-with_ledger, returned-IsUntouched, fatal-IsUntouched,
  panicked-IsUntouched, with_ledger-IsUntouched, if-IsUntouched, loaded-IsUntouched,
}
use hyperlux_chain.Cli.Volatile.Sending.{
  handle_tx-IsUntouched, handle_tx_bulk-IsUntouched, handle_tx_bulk_random_parallel-IsUntouched,
  handle_tx_bulk_multi-IsUntouched,
}

-- The commands that send transactions, suspend or report.
unfoldable pub is_volatile : Command → Bool
is_volatile tx_command = true
is_volatile tx_bulk_command = true
is_volatile tx_bulk_random_parallel_command = true
is_volatile tx_bulk_multi_command = true
is_volatile suspend_command = true
is_volatile validator_status_command = true
is_volatile metrics_command = true
is_volatile show_econ_command = true
is_volatile _ = false

suspend_validator-disk :
    (now : ℤ) (addr : Str) (scope : SuspensionScope) (dur : ℤ) (s : State)
    → (suspend_validator now addr scope dur s).disk ≡ s.disk
unfolding suspend_validator get_or_create_runtime
suspend_validator-disk now addr scope dur s = ground arith

suspended-IsUntouched :
    (inp : Inputs) (addr : Str) (scope : SuspensionScope) (dur : Option ℤ) (m : Machine)
    → IsUntouched m (elim dur [
      | none ↦ returned m
      | some d ↦ returned (with_ledger m (suspend_validator inp.now addr scope d (ledger_of m)))
    ])
suspended-IsUntouched inp addr scope none m = returned-IsUntouched m
suspended-IsUntouched inp addr scope (some d) m =
    with_ledger-IsUntouched m (suspend_validator inp.now addr scope d (ledger_of m))
      (suspend_validator-disk inp.now addr scope d (ledger_of m))

handle_suspend-IsUntouched :
    (lib : Libraries) (inp : Inputs) (args : List Str) (m : Machine)
    → IsUntouched m (handle_suspend lib inp args m)
unfolding handle_suspend
handle_suspend-IsUntouched lib inp [] m = returned-IsUntouched m
handle_suspend-IsUntouched lib inp (a ∷ []) m = returned-IsUntouched m
handle_suspend-IsUntouched lib inp (a ∷ b ∷ []) m = returned-IsUntouched m
handle_suspend-IsUntouched lib inp (addr ∷ scope ∷ dur ∷ more) m =
    if-IsUntouched m _ _ _ (returned-IsUntouched m)
      (suspended-IsUntouched inp addr (parse_scope scope).0 (lib.parse_duration dur) m)

load_validators-disk : (s : State) → (load_validators s).disk ≡ s.disk
unfolding load_validators
load_validators-disk s = ground arith

ensure_validators_ready-IsUntouched :
    (lib : Libraries) (m : Machine) → IsUntouched m (returned (ensure_validators_ready lib m))
unfolding ensure_validators_ready auto_load_validator_wallets
ensure_validators_ready-IsUntouched lib m =
    with_ledger-IsUntouched m
      (auto_load_validator_wallets lib.keys lib.dir_sort m.validators_dir
        (load_validators (ledger_of m)))
      (load_validators-disk (ledger_of m))

load_all_data-disk : (s : State) → (load_all_data s).disk ≡ s.disk
unfolding load_all_data load_validators load_nonce_table load_mempool load_blockchain load_balances
load_all_data-disk s = ground arith

run_command-IsUntouched :
    (lib : Libraries) (inp : Inputs) (c : Command) (args : List Str) (m : Machine) (e : Exit)
    → is_volatile c ≡ true
    → run_command lib inp c args m ≡ some e
    → IsUntouched m e
unfolding run_command is_volatile
run_command-IsUntouched lib inp tx_command args m e v r =
    subst (IsUntouched m) (some-injective _ _ r) (handle_tx-IsUntouched lib args m)
run_command-IsUntouched lib inp tx_bulk_command args m e v r =
    subst (IsUntouched m) (some-injective _ _ r) (handle_tx_bulk-IsUntouched lib args m)
run_command-IsUntouched lib inp tx_bulk_random_parallel_command args m e v r =
    subst (IsUntouched m) (some-injective _ _ r)
      (handle_tx_bulk_random_parallel-IsUntouched lib inp args m)
run_command-IsUntouched lib inp tx_bulk_multi_command args m e v r =
    subst (IsUntouched m) (some-injective _ _ r) (handle_tx_bulk_multi-IsUntouched lib inp args m)
run_command-IsUntouched lib inp suspend_command args m e v r =
    subst (IsUntouched m) (some-injective _ _ r) (handle_suspend-IsUntouched lib inp args m)
run_command-IsUntouched lib inp validator_status_command [] m e v r =
    subst (IsUntouched m) (some-injective _ _ r) (returned-IsUntouched m)
run_command-IsUntouched lib inp validator_status_command (a ∷ more) m e v r =
    subst (IsUntouched m) (some-injective _ _ r) (ensure_validators_ready-IsUntouched lib m)
run_command-IsUntouched lib inp metrics_command args m e v r =
    subst (IsUntouched m) (some-injective _ _ r) (returned-IsUntouched m)
run_command-IsUntouched lib inp show_econ_command args m e v r =
    subst (IsUntouched m) (some-injective _ _ r) (returned-IsUntouched m)
run_command-IsUntouched lib inp init_command args m e v r = cc
run_command-IsUntouched lib inp start_command args m e v r = cc
run_command-IsUntouched lib inp stress_test_command args m e v r = cc
run_command-IsUntouched lib inp auto_commit_command args m e v r = cc
run_command-IsUntouched lib inp stress_and_commit_command args m e v r = cc
run_command-IsUntouched lib inp wallet_bulk_command args m e v r = cc
run_command-IsUntouched lib inp commit_command args m e v r = cc
run_command-IsUntouched lib inp airdrop_command args m e v r = cc
run_command-IsUntouched lib inp fix_validators_command args m e v r = cc
run_command-IsUntouched lib inp full_test_command args m e v r = cc
run_command-IsUntouched lib inp slash_command args m e v r = cc

new_process-loaded :
    (m : Machine)
    → new_process (with_ledger (new_process m) (load_all_data (ledger_of (new_process m))))
      ≡ new_process m
new_process-loaded m =
    let s = ledger_of (new_process m) in
    new_process-with_ledger (new_process m) (load_all_data s) (load_all_data-disk s)

-- A run that sends transactions, suspends a validator or reports, however it ends, leaves no trace:
-- a process that is started after it starts like one that is started in its place.
pub run_cli-volatile :
    (lib : Libraries) (inp : Inputs) (c : Command) (program name : Str) (args : List Str)
    (m : Machine) (e : Exit)
    → command_of name ≡ some c
    → is_volatile c ≡ true
    → run_cli lib inp (program ∷ name ∷ args) m ≡ some e
    → new_process (machine_of e) ≡ new_process m
unfolding run_cli run_named IsUntouched
run_cli-volatile lib inp c program name args m e named v r =
    let loaded = load_new_process m in
    run_command-IsUntouched lib inp c args loaded e v
      (subst (λ o. run_named lib inp o args loaded ≡ some e) named r)
    ∙ new_process-loaded m
