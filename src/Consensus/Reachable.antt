-- ===== src/Consensus/Reachable.antt =====
-- A node from its first start on: what its operations, in any order, make of the chain.
use mathlib.Core.Option
use mathlib.Core.Option.{some-injective}
use hyperlux_chain.Prelude.{
  ◌≡◌, refl, sym, ap, ap₂, subst, ◌∙◌, inl, inr, Bool, true, false, Option, none, some, List,
  is_empty, arith, Bool-cases,
}
use hyperlux_chain.Prelude.Int.{ℤ, pos}
use hyperlux_chain.Prelude.Float64.{Float64}
use hyperlux_chain.Prelude.Str.{Str}
use hyperlux_chain.Primitives.{Primitives, SliceSort}
use hyperlux_chain.Ledger.Types.{
  State, Transaction, Block, Disk, Wallet, SuspensionScope, empty_state,
}
use hyperlux_chain.Ledger.Transaction.{validate_and_add_to_mempool, ingest_signed}
use hyperlux_chain.Ledger.Batch.{nonce_less}
use hyperlux_chain.Ledger.Storage.{
  save_all_data, save_blockchain, load_all_data, load_balances, load_blockchain, load_mempool,
  load_nonce_table, load_validators,
}
use hyperlux_chain.Ledger.Block.{with_genesis}
use hyperlux_chain.Ledger.Block.Chain.{IsChain, with_genesis-IsChain, add_block_with_txs-IsChain}
use hyperlux_chain.Ledger.Startup.{init_ledger, restart, reopen, airdrop}
use hyperlux_chain.Ledger.Validators.{suspend_validator, get_or_create_runtime}
use hyperlux_chain.Ledger.ApplySlash.{slash_safety_fault, slash_downtime}
use hyperlux_chain.Ledger.Frame.{
  chains, process-commit, commit-blockchain, remove_committed-blockchain, remove_committed-disk,
  slash_validator-chains, slash_safety_fault-chains, slash_downtime-chains,
}
use hyperlux_chain.Ledger.ValidatorFiles.{
  Folder, name_less, auto_load_validator_wallets, fix_validators,
}
use hyperlux_chain.Wallet.{KeyLibrary}
use hyperlux_chain.Consensus.{Node, Readings, commit_block}
use hyperlux_chain.Consensus.Cases.{proposer, Outcome, commit_block-Outcome}

module _ (c : Primitives) where
  abbrev pub IsStored : Option (List Block) → Type 0
  IsStored none = Unit
  IsStored (some bs) = IsChain c bs

  -- The chain in memory is linked, and so is the stored one, if any.
  abbrev pub IsSound : List Block × Option (List Block) → Type 0
  IsSound (bs, saved) = IsChain c bs × IsStored saved

  same-IsSound : {p q : List Block × Option (List Block)} → q ≡ p → IsSound p → IsSound q
  same-IsSound e h = subst IsSound (sym e) h

  load_validators-chains : (s : State) → chains (load_validators s) ≡ chains s
  unfolding load_validators
  load_validators-chains s = ground arith

  loads-chains :
      (s : State) → chains (load_validators (load_nonce_table (load_mempool s))) ≡ chains s
  unfolding load_validators load_nonce_table load_mempool
  loads-chains s = ground arith

  load_balances-chains : (s : State) → chains (load_balances s) ≡ chains s
  unfolding load_balances
  load_balances-chains s = ground arith

  load_blockchain-IsSound :
      (s : State) (o : Option (List Block))
      → s.disk.saved_blockchain ≡ o
      → IsSound (chains s)
      → IsSound (chains (load_blockchain s))
  unfolding load_blockchain
  load_blockchain-IsSound s none e h = rw (e, load_blockchain) h
  load_blockchain-IsSound s (some bs) e h = rw (e, load_blockchain) (subst IsStored e h.1, h.1)

  loaded-IsSound : (s : State) → IsSound (chains s) → IsSound (chains (load_all_data s))
  unfolding load_all_data
  loaded-IsSound s h =
      same-IsSound (loads-chains (load_blockchain (load_balances s)))
        (load_blockchain-IsSound (load_balances s) _ refl (same-IsSound (load_balances-chains s) h))

  restart-IsSound :
      (now : ℤ) (s : State) → IsStored s.disk.saved_blockchain → IsSound (chains (restart c now s))
  unfolding init_ledger save_blockchain with_genesis
  restart-IsSound now s h =
      let s0 : State = record empty_state { disk = s.disk } in
      let loaded = loaded-IsSound s0 (tt, h) in
      elim (Bool-cases (is_empty (load_all_data s0).blockchain)) [
        | inl e ↦ let first = with_genesis-IsChain c now empty_state tt in rw e (first, first)
        | inr e ↦ rw e loaded
      ]

  ingest_signed-chains :
      (v : Option Bool) (t : Transaction) (s : State) → chains ((ingest_signed v t s).1) ≡ chains s
  unfolding ingest_signed
  ingest_signed-chains none t s = refl
  ingest_signed-chains (some false) t s = refl
  ingest_signed-chains (some true) t s = refl

  validate-chains :
      (t : Transaction) (s : State) → chains ((validate_and_add_to_mempool c t s).1) ≡ chains s
  unfolding validate_and_add_to_mempool
  validate-chains t s = grind (arith, ingest_signed-chains)

  suspend_validator-chains :
      (now : ℤ) (addr : Str) (scope : SuspensionScope) (dur : ℤ) (s : State)
      → chains (suspend_validator now addr scope dur s) ≡ chains s
  unfolding suspend_validator get_or_create_runtime
  suspend_validator-chains now addr scope dur s = ground arith

  module _ (sorter : SliceSort nonce_less) where
    Outcome-IsSound :
        (r : Readings) (arrivals : List Str) (busy : Bool) (hash : Str) (s : State)
        (o : Option State) (s' : State)
        → Outcome c sorter r arrivals busy hash s o
        → o ≡ some s'
        → IsSound (chains s)
        → IsSound (chains s')
    Outcome-IsSound r arrivals busy hash s _ s' (Outcome.idle why) e h =
        subst (λ t. IsSound (chains t)) (some-injective _ _ e) h
    Outcome-IsSound r arrivals busy hash s _ s' (Outcome.rejected no') e h =
        subst (λ t. IsSound (chains t)) (some-injective _ _ e)
          (same-IsSound (slash_validator-chains r.slashing _ (pos 10) s) h)
    Outcome-IsSound r arrivals busy hash s _ s' (Outcome.panicked stop) e h = cc
    Outcome-IsSound r arrivals busy hash s _ s' (Outcome.appended w final s1 vote found ran) e h =
        let same =
          ap (λ (t : State). t.blockchain)
            (process-commit c sorter arrivals s.mempool final s s1 ran)
          ∙ commit-blockchain final s in
        let (linked, saved) =
          add_block_with_txs-IsChain c r.genesis_made r.block_made (proposer c r hash s) final s1
            (subst (IsChain c) (sym same) h.0) in
        subst (λ t. IsSound (chains t)) (some-injective _ _ e)
          (same-IsSound
            (ap₂ (λ bs (d : Disk). (bs, d.saved_blockchain)) (remove_committed-blockchain c final _)
              (remove_committed-disk c final _))
            (linked, subst IsStored (sym saved) linked))

    module _ (k : KeyLibrary) (dir_sort : SliceSort name_less) where
      -- One operation on a node: CommitBlock, the admission of a transaction, a suspension, a slash,
      -- an airdrop, loading or making the
      -- validators and their wallets, SaveAllData, and a new process, which loads the store with
      -- LoadAllData or, for the command `init`, with InitLedger.
      pub data Step (n : Node) : Node → Type 0 where
        committed :
            {n' : Node} (r : Readings) (arrivals : List Str)
            → commit_block c sorter r arrivals n ≡ some n'
            → Step n n'
        submitted :
            (tx : Transaction)
            → Step n (record n { ledger = (validate_and_add_to_mempool c tx n.ledger).1 })
        suspended :
            (now : ℤ) (addr : Str) (scope : SuspensionScope) (dur : ℤ)
            → Step n (record n { ledger = suspend_validator now addr scope dur n.ledger })
        slashed :
            (now : ℤ) (addr : Str) (amount : ℤ) (reporter : Str) (correlation_mul : Float64)
            → Step n (record n {
              ledger = slash_safety_fault now addr amount reporter correlation_mul n.ledger;
            })
        slashed_downtime :
            (now : ℤ) (addr : Str) → Step n (record n { ledger = slash_downtime now addr n.ledger })
        airdropped :
            (addr : Str) (amount : ℤ) → Step n (record n { ledger = airdrop addr amount n.ledger })
        validators_loaded : Step n (record n { ledger = load_validators n.ledger })
        wallets_loaded :
            (folder : Folder)
            → Step n (record n { ledger = auto_load_validator_wallets k dir_sort folder n.ledger })
        validators_fixed :
            (fresh : List Wallet) (folder : Folder)
            → Step n (record n { ledger = (fix_validators k dir_sort fresh folder n.ledger).1 })
        saved : Step n (record n { ledger = save_all_data n.ledger })
        reopened : (m : Node) → Step n (record m { ledger = reopen n.ledger })
        restarted : (now : ℤ) (m : Node) → Step n (record m { ledger = restart c now n.ledger })

      pub data Reachable : Node → Type 0 where
        first : (now : ℤ) (m : Node) → Reachable (record m { ledger = restart c now empty_state })
        then : {n n' : Node} → Reachable n → Step n n' → Reachable n'

      Step-IsSound :
          {n n' : Node} → Step n n' → IsSound (chains n.ledger) → IsSound (chains n'.ledger)
      unfolding airdrop save_all_data auto_load_validator_wallets fix_validators
      Step-IsSound {n} {n'} (committed r arrivals e) h =
          Outcome-IsSound r arrivals n.committing _ n.ledger _ n'.ledger
            (commit_block-Outcome c sorter r arrivals n)
            (ap (Option.map (λ (m : Node). m.ledger)) e) h
      Step-IsSound {n} (submitted tx) h = same-IsSound (validate-chains tx n.ledger) h
      Step-IsSound {n} (suspended now addr scope dur) h =
          same-IsSound (suspend_validator-chains now addr scope dur n.ledger) h
      Step-IsSound {n} (slashed now addr amount reporter correlation_mul) h =
          same-IsSound (slash_safety_fault-chains now addr amount reporter correlation_mul n.ledger)
            h
      Step-IsSound {n} (slashed_downtime now addr) h =
          same-IsSound (slash_downtime-chains now addr n.ledger) h
      Step-IsSound {n} (airdropped addr amount) h = h
      Step-IsSound {n} validators_loaded h = same-IsSound (load_validators-chains n.ledger) h
      Step-IsSound {n} (wallets_loaded folder) h = h
      Step-IsSound {n} (validators_fixed fresh folder) h = h
      Step-IsSound {n} saved h = (h.0, h.0)
      Step-IsSound {n} (reopened m) h =
          loaded-IsSound (record empty_state { disk = n.ledger.disk }) (tt, h.1)
      Step-IsSound {n} (restarted now m) h = restart-IsSound now n.ledger h.1

      -- In every state that a node can reach from its first start by these operations, restarts
      -- included, the chain in memory is linked from its genesis block on, and what the store has of
      -- it is linked too.
      pub Reachable-IsSound : (n : Node) → Reachable n → IsSound (chains n.ledger)
      Reachable-IsSound _ (first now m) = restart-IsSound now empty_state tt
      Reachable-IsSound _ (then {n} r step) = Step-IsSound step (Reachable-IsSound n r)
