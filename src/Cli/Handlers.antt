-- ===== src/Cli/Handlers.antt =====
-- The other commands of cli/cli.go that end by themselves.
pub mod Reports
use hyperlux_chain.Prelude.{
  ℕ, zero, suc, Bool, true, false, not, ◌&&◌, ◌||◌, Option, none, some, List, [], ◌∷◌, ◌++◌,
  if◌then◌else◌,
}
use hyperlux_chain.Prelude.Int.{ℤ, pos, pos_part, leb_ℤ}
use hyperlux_chain.Prelude.Word64.{add64}
use hyperlux_chain.Prelude.Str.{Str, codes, equals}
use hyperlux_chain.Prelude.Dict.{Dict, get, insert}
use hyperlux_chain.Codec.{show_ℕ}
use hyperlux_chain.Ledger.Types.{State, Wallet}
use hyperlux_chain.Ledger.Storage.{load_validators, save_all_data, save_balances, save_validators}
use hyperlux_chain.Ledger.Validators.{suspend_validator, one}
use hyperlux_chain.Ledger.ApplySlash.{slash_safety_fault}
use hyperlux_chain.Ledger.Startup.{init_ledger}
use hyperlux_chain.Ledger.ValidatorFiles.{Folder, auto_load_validator_wallets}
use hyperlux_chain.Ledger.ValidatorFiles
use hyperlux_chain.Wallet.{KeyLibrary, Files, load_wallet, save_to_file}
use hyperlux_chain.Consensus.{Node, commit_block}
use hyperlux_chain.Cli.{Libraries, Inputs, Machine, Exit, returned, fatal, with_ledger}
use hyperlux_chain.Cli
use hyperlux_chain.Cli.Args.{atoi, parse_scope}
use hyperlux_chain.Cli.Spam.{ledger_of}

unfoldable pub ensure_validators_ready : Libraries → Machine → Machine
unfolding load_validators auto_load_validator_wallets
ensure_validators_ready lib m = with_ledger m (
    auto_load_validator_wallets lib.keys lib.dir_sort m.validators_dir
      (load_validators (ledger_of m)))

unfoldable pub handle_init : Libraries → Inputs → Machine → Exit
unfolding init_ledger
handle_init lib inp m = returned (with_ledger m (init_ledger lib.primitives inp.now (ledger_of m)))

-- `CommitBlock` and `SaveAllData`, with the readings and arrivals of the n-th round.
unfoldable pub commit_and_save : Libraries → Inputs → ℕ → Machine → Exit
unfolding commit_block save_all_data
commit_and_save lib inp n m =
    elim (commit_block lib.primitives lib.tx_sort (inp.readings n) (inp.arrivals n) m.node) [
      | none ↦ Exit.panicked m
      | some node ↦
          returned (record m { node = record node { ledger = save_all_data node.ledger } })
    ]

unfoldable pub handle_commit : Libraries → Inputs → Machine → Exit
unfolding commit_and_save ensure_validators_ready
handle_commit lib inp m = commit_and_save lib inp 0 (ensure_validators_ready lib m)

-- The loop over the names in the folder: a file that does not load is passed over.
unfoldable pub airdrop_to : KeyLibrary → Files → ℤ → Str → List Str → Dict ℤ → Dict ℤ
airdrop_to k files amount folder [] balances = balances
airdrop_to k files amount folder (name ∷ names) balances =
    elim (load_wallet k (folder ++ (b'/' ∷ name)) files) [
      | none ↦ airdrop_to k files amount folder names balances
      | some w ↦
          airdrop_to k files amount folder names
            (insert w.address_ed (add64 (get w.address_ed balances) amount) balances)
    ]

unfoldable pub handle_airdrop : Libraries → List Str → Machine → Exit
unfolding airdrop_to save_balances
handle_airdrop lib (amount ∷ folder ∷ more) m = elim (lib.read_dir m.files folder) [
  | none ↦ fatal m
  | some names ↦
      let s = ledger_of m in
      returned (
        with_ledger m (
          save_balances (record s {
            balances = airdrop_to lib.keys m.files (atoi amount).0 folder names s.balances;
          })))
]
handle_airdrop lib _ m = returned m

abbrev pub first_fresh : (ℕ → Wallet) → ℕ → List Wallet
first_fresh fresh zero = []
first_fresh fresh (suc n) = first_fresh fresh n ++ (fresh n ∷ [])

-- `const N = 6`
unfoldable pub run_fix_validators : Libraries → Inputs → Machine → Machine
unfolding ValidatorFiles.fix_validators
run_fix_validators lib inp m =
    let made =
      ValidatorFiles.fix_validators lib.keys lib.dir_sort (first_fresh inp.fresh 6) m.validators_dir
        (ledger_of m) in
    record (with_ledger m made.1) { validators_dir = made.0 }

unfoldable pub handle_fix_validators : Libraries → Inputs → Machine → Exit
unfolding run_fix_validators save_all_data
handle_fix_validators lib inp m =
    let fixed = run_fix_validators lib inp m in
    returned (with_ledger fixed (save_all_data (ledger_of fixed)))

abbrev pub bulk_name : ℕ → Str
bulk_name i = codes "bulk-wallets/wallet" ++ (show_ℕ i ++ codes ".json")

unfoldable pub write_wallets : KeyLibrary → (ℕ → Wallet) → ℕ → ℕ → Files → Files
unfolding save_to_file show_ℕ
write_wallets k fresh i zero files = files
write_wallets k fresh i (suc n) files =
    write_wallets k fresh (suc i) n (save_to_file k (fresh i) (bulk_name i) files)

unfoldable pub handle_wallet_bulk : Libraries → Inputs → List Str → Machine → Exit
unfolding write_wallets
handle_wallet_bulk lib inp (count ∷ more) m =
    returned
      (record m { files = write_wallets lib.keys inp.fresh 0 (pos_part (atoi count).0) m.files })
handle_wallet_bulk lib inp [] m = returned m

unfoldable pub handle_suspend : Libraries → Inputs → List Str → Machine → Exit
unfolding suspend_validator
handle_suspend lib inp (addr ∷ scope_str ∷ dur_str ∷ more) m =
    let (scope, fine) = parse_scope scope_str in
    if not fine then returned m else elim (lib.parse_duration dur_str) [
      | none ↦ returned m
      | some dur ↦ returned (with_ledger m (suspend_validator inp.now addr scope dur (ledger_of m)))
    ]
handle_suspend lib inp _ m = returned m

-- The reporter is the argument behind the amount, unless it is "-".
unfoldable pub reporter_of : List Str → Str
reporter_of [] = []
reporter_of (r ∷ rest) = if equals r (codes "-") then [] else r

unfoldable pub handle_slash : Libraries → Inputs → List Str → Machine → Exit
unfolding reporter_of ensure_validators_ready slash_safety_fault save_validators save_balances
handle_slash lib inp (addr ∷ amount ∷ more) m =
    let (n, fine) = atoi amount in
    let ready = ensure_validators_ready lib m in
    let slashed = slash_safety_fault inp.now addr n (reporter_of more) one (ledger_of ready) in
    if not fine || leb_ℤ n (pos 0)
    then returned m
    else returned (with_ledger ready (save_balances (save_validators slashed)))
handle_slash lib inp _ m = returned m
