-- ===== src/Consensus/Restarted.antt =====
-- What a restart after CommitBlock finds in the mempool.
use mathlib.Core.Option
use mathlib.Core.Option.{some-injective}
use hyperlux_chain.Prelude.{
  ◌≡◌, ◌≢◌, sym, ap, ◌∙◌, Bool, Option, some, List, inl, inr, is_empty, Bool-cases, arith,
}
use hyperlux_chain.Prelude.Int.{ℤ, pos}
use hyperlux_chain.Prelude.Str.{Str}
use hyperlux_chain.Primitives.{Primitives, SliceSort}
use hyperlux_chain.Ledger.Types.{State, Transaction, ValidatorDef, Disk}
use hyperlux_chain.Ledger.Batch.{nonce_less}
use hyperlux_chain.Ledger.Storage.{
  save_all_data, load_all_data, save_blockchain, load_balances, load_blockchain, load_mempool,
  load_nonce_table, load_validators,
}
use hyperlux_chain.Ledger.Block.{add_block_with_txs, with_genesis}
use hyperlux_chain.Ledger.Startup.{init_ledger, restart, reopen}
use hyperlux_chain.Ledger.Frame.{
  process-commit, commit-mempool, remove_committed-disk, slash_validator-blockchain,
}
use hyperlux_chain.Consensus.{Node, Readings, commit_block}
use hyperlux_chain.Consensus.Cases.{proposer, Outcome, commit_block-Outcome}

with_genesis-mempool :
    (c : Primitives) (now : ℤ) (s : State) → (with_genesis c now s).mempool ≡ s.mempool
unfolding with_genesis
with_genesis-mempool c now s = elim (Bool-cases (is_empty s.blockchain)) [
  | inl e ↦ rw e
  | inr e ↦ rw e
]

add_block-saved_mempool :
    (c : Primitives) (now0 now1 : ℤ) (v : ValidatorDef) (txs : List Transaction) (s : State)
    → (add_block_with_txs c now0 now1 v txs s).1.disk.saved_mempool ≡ some s.mempool
unfolding add_block_with_txs save_all_data
add_block-saved_mempool c now0 now1 v txs s = ap some (with_genesis-mempool c now0 s)

-- The loads of the other tables do not touch what the mempool is loaded from, nor the mempool.
loads-disk : (s : State) → (load_blockchain (load_balances s)).disk ≡ s.disk
unfolding load_blockchain load_balances
loads-disk s = ground arith

loads-mempool : (s : State) → (load_validators (load_nonce_table s)).mempool ≡ s.mempool
unfolding load_validators load_nonce_table
loads-mempool s = ground arith

load_mempool-mempool :
    (s : State) (txs : List Transaction)
    → s.disk.saved_mempool ≡ some txs
    → (load_mempool s).mempool ≡ txs
unfolding load_mempool
load_mempool-mempool s txs e = rw e

load_all_data-mempool :
    (s : State) (txs : List Transaction)
    → s.disk.saved_mempool ≡ some txs
    → (load_all_data s).mempool ≡ txs
unfolding load_all_data
load_all_data-mempool s txs e =
    loads-mempool (load_mempool (load_blockchain (load_balances s)))
    ∙ load_mempool-mempool (load_blockchain (load_balances s)) txs
        (ap (λ (d : Disk). d.saved_mempool) (loads-disk s) ∙ e)

init_ledger-loaded :
    (c : Primitives) (now : ℤ) (s : State)
    → (init_ledger c now s).mempool ≡ (load_all_data s).mempool
unfolding init_ledger save_blockchain
init_ledger-loaded c now s = elim (Bool-cases (is_empty (load_all_data s).blockchain)) [
  | inl e ↦ rw e
  | inr e ↦ rw e
]

init_ledger-mempool :
    (c : Primitives) (now : ℤ) (s : State) (txs : List Transaction)
    → s.disk.saved_mempool ≡ some txs
    → (init_ledger c now s).mempool ≡ txs
init_ledger-mempool c now s txs e = init_ledger-loaded c now s ∙ load_all_data-mempool s txs e

module _ (c : Primitives) (sorter : SliceSort nonce_less) where
  Outcome-saved_mempool :
      (r : Readings) (arrivals : List Str) (busy : Bool) (hash : Str) (s : State) (o : Option State)
      (s' : State)
      → Outcome c sorter r arrivals busy hash s o
      → o ≡ some s'
      → s'.blockchain ≢ s.blockchain
      → s'.disk.saved_mempool ≡ some s.mempool
  Outcome-saved_mempool r arrivals busy hash s _ s' (Outcome.idle why) e changed =
      absurd (changed (ap (λ (t : State). t.blockchain) (sym (some-injective _ _ e))))
  Outcome-saved_mempool r arrivals busy hash s _ s' (Outcome.rejected no') e changed = absurd (
      changed (
        ap (λ (t : State). t.blockchain) (sym (some-injective _ _ e))
        ∙ slash_validator-blockchain r.slashing _ (pos 10) s))
  Outcome-saved_mempool r arrivals busy hash s _ s' (Outcome.panicked stop) e changed = cc
  Outcome-saved_mempool r arrivals busy hash s _ s' (Outcome.appended w final s1 vote found ran) e
        changed =
      ap (λ (t : State). t.disk.saved_mempool) (sym (some-injective _ _ e))
      ∙ ap (λ (d : Disk). d.saved_mempool) (remove_committed-disk c final _)
      ∙ add_block-saved_mempool c r.genesis_made r.block_made (proposer c r hash s) final s1
      ∙ ap some (
          ap (λ (t : State). t.mempool) (process-commit c sorter arrivals s.mempool final s s1 ran)
          ∙ commit-mempool final s)

  -- After a call of CommitBlock that made a block, a new process, whether it runs `init` or another
  -- command, waits for all the transactions that waited before that call, those of the block
  -- included.
  pub restart_after_commit_block :
      (r : Readings) (arrivals : List Str) (n n' : Node) (now : ℤ)
      → commit_block c sorter r arrivals n ≡ some n'
      → n'.ledger.blockchain ≢ n.ledger.blockchain
      → ((restart c now n'.ledger).mempool ≡ n.ledger.mempool)
        × ((reopen n'.ledger).mempool ≡ n.ledger.mempool)
  restart_after_commit_block r arrivals n n' now e changed =
      let stored =
        Outcome-saved_mempool r arrivals n.committing _ n.ledger _ n'.ledger
          (commit_block-Outcome c sorter r arrivals n) (ap (Option.map (λ (m : Node). m.ledger)) e)
          changed in
      (
        init_ledger-mempool c now _ n.ledger.mempool stored,
        load_all_data-mempool _ n.ledger.mempool stored,
      )
