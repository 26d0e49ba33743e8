-- ===== src/Cli/Rounds.antt =====
-- The rounds of handleStressTest and handleAutoCommit (cli/cli.go). The pauses between rounds change
-- nothing.
use hyperlux_chain.Prelude.{ℕ, zero, suc, none, some, List, [], ◌∷◌, length, take, if◌then◌else◌}
use hyperlux_chain.Prelude.Int.{ℤ, pos, pos_part, ltb_ℤ}
use hyperlux_chain.Prelude.Str.{Str, codes}
use hyperlux_chain.Cli.{Libraries, Inputs, Machine, Exit, returned, fatal, panicked, with_ledger}
use hyperlux_chain.Cli.Args.{atoi}
use hyperlux_chain.Cli.Spam.{ledger_of, names_or_none, file_jobs, spam}
use hyperlux_chain.Cli.Handlers.{ensure_validators_ready, commit_and_save}

-- `if walletCount > len(files)`
abbrev pub cap : ℤ → ℕ → ℤ
cap n k = if ltb_ℤ (pos k) n then pos k else n

-- One round's transactions, of the first `n` wallets, and its commit. The jobs of one wallet are one
-- job of the source; their order is that of the schedule, which may be any.
unfoldable pub stress_with : Libraries → Inputs → ℕ → ℤ → ℕ → List Str → Machine → Exit
unfolding spam file_jobs commit_and_save
stress_with lib inp i n per names m =
    let jobs =
      (inp.schedule i).arrange
        (file_jobs lib.keys m.files (inp.draws i) 0 per (take (pos_part n) names)) in
    if ltb_ℤ n (pos 0) then panicked m else elim (spam lib.primitives jobs (ledger_of m)) [
      | none ↦ panicked m
      | some s ↦ commit_and_save lib inp i (with_ledger m s)
    ]

-- The rounds from the i-th on. A round that does not return ends the run.
unfoldable pub stress_rounds : Libraries → Inputs → ℕ → ℕ → ℤ → ℕ → Machine → Exit
unfolding stress_with
stress_rounds lib inp i zero n per m = returned m
stress_rounds lib inp i (suc rounds) n per m =
    elim (names_or_none (lib.read_dir m.files (codes "bulk-wallets"))) [
      | [] ↦ fatal m
      | name ∷ names ↦
          let capped = cap n (length (name ∷ names)) in
          elim (stress_with lib inp i capped per (name ∷ names) m) [
            | returned m' ↦ stress_rounds lib inp (suc i) rounds capped per m'
            | fatal m' ↦ fatal m'
            | panicked m' ↦ panicked m'
          ]
    ]

unfoldable pub handle_stress_test : Libraries → Inputs → List Str → Machine → Exit
unfolding stress_rounds ensure_validators_ready
handle_stress_test lib inp (wallet_count ∷ per_wallet ∷ rounds ∷ interval ∷ more) m =
    stress_rounds lib inp 0 (pos_part (atoi rounds).0) (atoi wallet_count).0
      (pos_part (atoi per_wallet).0) (ensure_validators_ready lib m)
handle_stress_test lib inp _ m = returned m

-- The first rounds of a loop that does not end.
unfoldable pub auto_commit_rounds : Libraries → Inputs → ℕ → ℕ → Machine → Exit
unfolding commit_and_save
auto_commit_rounds lib inp i zero m = returned m
auto_commit_rounds lib inp i (suc rounds) m = elim (commit_and_save lib inp i m) [
  | returned m' ↦ auto_commit_rounds lib inp (suc i) rounds m'
  | fatal m' ↦ fatal m'
  | panicked m' ↦ panicked m'
]
