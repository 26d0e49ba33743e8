-- ===== src/Tests/Commands.antt =====
-- The theorems about the program's commands at concrete runs.
use mathlib.Core.List.Permᴰ
use hyperlux_chain.Prelude.{◌≡◌, refl, none, some, Option, [], ◌∷◌, length, false, List, inr, arith}
use hyperlux_chain.Prelude.Int.{pos}
use hyperlux_chain.Prelude.Str.{Str, codes, Str_discrete}
use hyperlux_chain.Primitives.{Schedule}
use hyperlux_chain.Ledger.Types.{empty_state, Wallet, Block}
use hyperlux_chain.Wallet.{save_to_file, load_wallet}
use hyperlux_chain.Prelude.Dict
use hyperlux_chain.Ledger.Transaction.{new_transaction, validate_and_add_to_mempool}
use hyperlux_chain.Cli.{Libraries, Inputs, Machine, Exit, fatal, machine_of, new_process}
use hyperlux_chain.Cli.Args.{tx_command, command_of, atoi}
use hyperlux_chain.Ledger.Block.{genesis}
use hyperlux_chain.Cli.Handlers.Reports.{Metrics, chain_metrics, at_least_one}
use hyperlux_chain.Cli.Handlers.Reports.Window.{gap_total, chain_metrics-window}
use hyperlux_chain.Cli.Run.{run_cli}
use hyperlux_chain.Cli.Volatile.{is_volatile, run_cli-volatile}
use hyperlux_chain.Tests.Setup.{toy, sorter, alice, bob, evaluation, pay}
use hyperlux_chain.Tests.Proposals.{readings}
use hyperlux_chain.Tests.Wallets.{keys, wallet, put}
use hyperlux_chain.Tests.Folders.{by_name}

abbrev libraries : Libraries
libraries = record {
  primitives = toy;
  keys = keys;
  tx_sort = sorter;
  dir_sort = by_name;
  parse_duration = λ s. none;
  read_dir = λ f d. none;
}

abbrev in_order : Schedule (Wallet × Str)
in_order = record { arrange = λ jobs. jobs; arrange-perm = λ jobs. Permᴰ.refl jobs }

abbrev inputs : Inputs
inputs = record {
  now = pos 0;
  readings = λ n. readings;
  arrivals = λ n. [];
  draws = λ i n. [];
  fresh = λ n. wallet;
  schedule = λ n. in_order;
}

-- The store has a balance for the wallet in the file "w.json".
abbrev machine : Machine
machine = record {
  node = record {
    ledger = record empty_state {
      disk = record (empty_state.disk) { saved_balances = some ((alice, pos 1000) ∷ []) };
    };
    poh_chain = [];
    poh_slot = pos 0;
    delegates = [];
    last_block_wall = none;
    last_tps = (0, pos 0);
    committing = false;
  };
  validators_dir = [];
  files = save_to_file keys wallet (codes "w.json") [];
}

abbrev ended : Option Exit → Exit
ended none = fatal machine
ended (some e) = e

abbrev command_line : List Str
command_line = codes "hyperlux" ∷ codes "tx" ∷ codes "send" ∷ bob ∷ codes "20" ∷ codes "w.json" ∷ []

-- The run accepts the transaction.
accepted_run :
    length (machine_of (ended (run_cli libraries inputs command_line machine))).node.ledger.mempool
    ≡ 1
unfolding run_cli save_to_file put atoi load_wallet new_transaction validate_and_add_to_mempool
    Dict.merge evaluation
accepted_run = refl

run_cli-volatile_example :
    let e = ended (run_cli libraries inputs command_line machine) in
    new_process (machine_of e) ≡ new_process machine
unfolding run_cli save_to_file Str_discrete command_of is_volatile
run_cli-volatile_example =
    run_cli-volatile libraries inputs tx_command (codes "hyperlux") (codes "tx")
      (codes "send" ∷ bob ∷ codes "20" ∷ codes "w.json" ∷ []) machine
      (ended (run_cli libraries inputs command_line machine)) refl refl refl

abbrev first_block : Block
first_block = genesis toy (pos 1000000000)

abbrev next_block : Block
next_block = record (genesis toy (pos 5000000000)) {
  transactions = pay alice bob (pos 3) (pos 4) ∷ [];
}

chain_metrics-window_example :
    (m : Metrics) × (chain_metrics (first_block ∷ next_block ∷ []) ≡ some m)
    × (m.height ≡ 2)
    × (m.last_index ≡ next_block.index)
    × (m.window ≡ 1)
    × (m.sum_tx ≡ 1)
    × (m.sum_dt ≡ at_least_one (gap_total (pos 0) first_block (next_block ∷ [])))
chain_metrics-window_example =
    chain_metrics-window [] (next_block ∷ []) first_block (inr (refl, omega arith))

-- Four seconds lie between the blocks.
gap_run : gap_total (pos 0) first_block (next_block ∷ []) ≡ pos 4
unfolding genesis evaluation
gap_run = refl
