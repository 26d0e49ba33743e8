-- ===== src/Cli/Spam.antt =====
-- The commands of cli/cli.go that make transactions: handleTx, handleTxBulk,
-- handleTxBulkRandomParallel, handleTxBulkMulti. The arguments are those behind the command's name.
use hyperlux_chain.Prelude.{
  ℕ, zero, suc, ◌+◌, Bool, true, false, not, ◌&&◌, ◌||◌, Option, none, some, List, [], ◌∷◌, ◌++◌,
  length, take, if◌then◌else◌, ◌==◌,
}
use hyperlux_chain.Prelude.Int.{ℤ, pos, pos_part, ltb_ℤ}
use hyperlux_chain.Prelude.Str.{Str, codes, equals}
use hyperlux_chain.Primitives.{Primitives}
use hyperlux_chain.Codec.{hex_encode}
use hyperlux_chain.Ledger.Types.{State, Wallet}
use hyperlux_chain.Ledger.Transaction.{
  Ingest, accepted, insufficient_balance, invalid_signature, panicked, invalid_nonce,
  new_transaction, validate_and_add_to_mempool,
}
use hyperlux_chain.Wallet.{KeyLibrary, Files, load_wallet}
use hyperlux_chain.Cli.{Libraries, Inputs, Machine, Exit, returned, fatal, with_ledger}
use hyperlux_chain.Cli.Args.{atoi}

-- Whether the transaction was accepted; `none` is a panic.
unfoldable pub ingested : Ingest × State → Option (Bool × State)
ingested (panicked, s) = none
ingested (accepted, s) = some (true, s)
ingested (insufficient_balance, s) = some (false, s)
ingested (invalid_signature, s) = some (false, s)
ingested (invalid_nonce e g, s) = some (false, s)

-- `NewTransaction` and `ValidateAndAddToMempool`.
unfoldable pub send : Primitives → Wallet → Str → ℤ → State → Option (Bool × State)
unfolding ingested
send c w to amount s = elim (new_transaction c w to amount s) [
  | none ↦ none
  | some tx ↦ ingested (validate_and_add_to_mempool c tx s)
]

-- An error ends the run by `log.Fatal`.
unfoldable pub end_sent : Machine → Option (Bool × State) → Exit
end_sent m none = Exit.panicked m
end_sent m (some (true, s)) = returned (with_ledger m s)
end_sent m (some (false, s)) = fatal (with_ledger m s)

abbrev pub ledger_of : Machine → State
ledger_of m = m.node.ledger

unfoldable pub handle_tx : Libraries → List Str → Machine → Exit
unfolding end_sent send
handle_tx lib (sub ∷ to ∷ amount ∷ file ∷ more) m =
    let (n, fine) = atoi amount in
    if not (equals sub (codes "send"))
    then returned m
    else if not fine
    then fatal m
    else elim (load_wallet lib.keys file m.files) [
      | none ↦ fatal m
      | some w ↦ end_sent m (send lib.primitives w to n (ledger_of m))
    ]
handle_tx lib _ m = returned m

-- The loop of handleTxBulk, which an error ends.
unfoldable pub send_times : Primitives → Wallet → Str → ℕ → State → Option (Bool × State)
unfolding send
send_times c w to zero s = some (true, s)
send_times c w to (suc n) s = elim (send c w to (pos 1) s) [
  | none ↦ none
  | some (false, s') ↦ some (false, s')
  | some (true, s') ↦ send_times c w to n s'
]

unfoldable pub handle_tx_bulk : Libraries → List Str → Machine → Exit
unfolding end_sent send_times
handle_tx_bulk lib (count ∷ to ∷ file ∷ more) m = elim (load_wallet lib.keys file m.files) [
  | none ↦ fatal m
  | some w ↦ end_sent m (send_times lib.primitives w to (pos_part (atoi count).0) (ledger_of m))
]
handle_tx_bulk lib _ m = returned m

abbrev pub random_address : Str → Str
random_address rnd = codes "hlcRnd" ++ hex_encode rnd

-- The jobs of one wallet, from the n-th drawing of random bytes on.
unfoldable pub wallet_jobs : (ℕ → Str) → ℕ → ℕ → Wallet → List (Wallet × Str)
wallet_jobs draws n zero w = []
wallet_jobs draws n (suc per) w = (w, random_address (draws n)) ∷ wallet_jobs draws (suc n) per w

-- The jobs in the order in which the goroutines get to them: an error is dropped, `none` is a panic.
unfoldable pub spam : Primitives → List (Wallet × Str) → State → Option State
unfolding send
spam c [] s = some s
spam c ((w, to) ∷ jobs) s = elim (send c w to (pos 1) s) [
  | none ↦ none
  | some (fine, s') ↦ spam c jobs s'
]

unfoldable pub end_spam : Machine → Option State → Exit
end_spam m none = Exit.panicked m
end_spam m (some s) = returned (with_ledger m s)

-- A negative count panics in `make`, a negative number of workers in `wg.Add`; without workers
-- nothing takes the jobs.
unfoldable pub handle_tx_bulk_random_parallel : Libraries → Inputs → List Str → Machine → Exit
unfolding end_spam spam wallet_jobs
handle_tx_bulk_random_parallel lib inp (count ∷ file ∷ workers ∷ more) m =
    let n = (atoi count).0 in
    let k = (atoi workers).0 in
    elim (load_wallet lib.keys file m.files) [
      | none ↦ fatal m
      | some w ↦
          let jobs = (inp.schedule 0).arrange (wallet_jobs (inp.draws 0) 0 (pos_part n) w) in
          if ltb_ℤ n (pos 0) || ltb_ℤ k (pos 0)
          then Exit.panicked m
          else if pos_part k == 0
          then returned m
          else end_spam m (spam lib.primitives jobs (ledger_of m))
    ]
handle_tx_bulk_random_parallel lib inp _ m = returned m

abbrev pub bulk_file : Str → Str
bulk_file name = codes "bulk-wallets/" ++ name

-- The jobs of the wallets in the files that load.
unfoldable pub file_jobs : KeyLibrary → Files → (ℕ → Str) → ℕ → ℕ → List Str → List (Wallet × Str)
unfolding wallet_jobs
file_jobs k files draws n per [] = []
file_jobs k files draws n per (name ∷ names) =
    let rest = file_jobs k files draws (n + per) per names in
    elim (load_wallet k (bulk_file name) files) [
      | none ↦ rest
      | some w ↦ wallet_jobs draws n per w ++ rest
    ]

unfoldable pub all_load : KeyLibrary → Files → List Str → Bool
all_load k files [] = true
all_load k files (name ∷ names) = elim (load_wallet k (bulk_file name) files) [
  | none ↦ false
  | some w ↦ all_load k files names
]

abbrev pub names_or_none : Option (List Str) → List Str
names_or_none none = []
names_or_none (some names) = names

-- A file that does not load gives a nil wallet, which panics in the first transaction.
unfoldable pub handle_tx_bulk_multi : Libraries → Inputs → List Str → Machine → Exit
unfolding end_spam spam file_jobs all_load
handle_tx_bulk_multi lib inp (wallet_count ∷ per_wallet ∷ more) m =
    let n = (atoi wallet_count).0 in
    let per = pos_part (atoi per_wallet).0 in
    let names = names_or_none (lib.read_dir m.files (codes "bulk-wallets")) in
    let used = take (pos_part n) names in
    let jobs = (inp.schedule 0).arrange (file_jobs lib.keys m.files (inp.draws 0) 0 per used) in
    if ltb_ℤ (pos (length names)) n
    then fatal m
    else if ltb_ℤ n (pos 0) || (not (per == 0) && not (all_load lib.keys m.files used))
    then Exit.panicked m
    else end_spam m (spam lib.primitives jobs (ledger_of m))
handle_tx_bulk_multi lib inp _ m = returned m
