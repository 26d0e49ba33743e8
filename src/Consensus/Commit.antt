-- ===== src/Consensus/Commit.antt =====
-- CommitBlock of consensus/consensus.go as a whole: what it does to the chain, and to the balances.
use mathlib.Core.Option
use mathlib.Core.Option.{some-injective}
use hyperlux_chain.Prelude.{
  ◌^◌, ◌≡◌, sym, ap, subst, ◌∙◌, Bool, Option, some, List, [], ◌∷◌, ◌++◌, All,
}
use hyperlux_chain.Prelude.Int.{pos, ◌+ℤ◌, ◌<ℤ◌, int_laws, eq_le, eq_of_parts}
use hyperlux_chain.Prelude.Str.{Str}
use hyperlux_chain.Prelude.Dict.{get, total, lookup}
use hyperlux_chain.Primitives.{Primitives, SliceSort}
use hyperlux_chain.Ledger.Types.{State, Block, Transaction, Wallet}
use hyperlux_chain.Ledger.Mempool.{remove_committed_from_mempool}
use hyperlux_chain.Ledger.Batch.{nonce_less, process_tx_list_parallel, IsArrivalOrder}
use hyperlux_chain.Ledger.Batch.Arrival.{process-All}
use hyperlux_chain.Ledger.Batch.Conservation.{IsPlain, IsSound, fees, process-IsSound}
use hyperlux_chain.Ledger.Batch.Refinement.{
  Accounts, view, only_at, ExecutesAll, process-ExecutesAll,
}
use hyperlux_chain.Ledger.Block.{add_block_with_txs, with_genesis}
use hyperlux_chain.Ledger.Block.Chain.{IsChain, add_block_with_txs-IsChain}
use hyperlux_chain.Ledger.Block.Reward.{
  add_block_with_txs-total, add_block_with_txs-paid, add_block_with_txs-nonce_table,
  add_block_with_txs-appended, with_genesis-blockchain,
}
use hyperlux_chain.Ledger.Frame.{
  commit-blockchain, process-commit, remove_committed-blockchain, remove_committed-balances,
  remove_committed-nonce_table, slash_validator-blockchain,
}
use hyperlux_chain.Ledger.ApplySlash.{slash_validator}
use hyperlux_chain.Consensus.{Node, Readings, commit_block}
use hyperlux_chain.Consensus.Cases.{
  slot_hash, proposer, HasQuorum, IsIdle, Outcome, commit_block-Outcome,
}

-- A block is made, for a proposer with a wallet: the block's transactions are executed one after
-- the other from the accounts before, and then their fees and the reward of 5 reach the proposer.
pub record Minted (c : Primitives) (r : Readings) (hash : Str) (s s' : State) : Type 0 where
  pub wallet : Wallet
  pub its_wallet : lookup (proposer c r hash s).address s.validator_wallets ≡ some wallet
  pub block : Block
  pub appends : s'.blockchain ≡ (with_genesis c r.genesis_made s).blockchain ++ (block ∷ [])
  pub executed : Accounts
  pub executes : ExecutesAll c (view s) block.transactions executed
  pub pays :
      (k : Str)
      → get k s'.balances
        ≡ executed.balance k
          +ℤ only_at (proposer c r hash s).address k (fees block.transactions +ℤ pos 5)
  pub nonces : (k : Str) → get k s'.nonce_table ≡ executed.nonce k
  pub sound : IsSound s'.balances
  pub raised : total s'.balances ≡ total s.balances +ℤ pos 5

-- What a call of CommitBlock makes of a ledger, by the guard, the slot's hash and the ledger.
pub data Supplied (c : Primitives) (r : Readings) (busy : Bool) (hash : Str) (s s' : State)
    : Type 0 where
  untouched : IsIdle c r busy hash s → s' ≡ s → Supplied c r busy hash s s'
  slashed :
      ¬ HasQuorum r s
      → s' ≡ slash_validator r.slashing (proposer c r hash s).address (pos 10) s
      → Supplied c r busy hash s s'
  minted : HasQuorum r s → Minted c r hash s s' → Supplied c r busy hash s s'

module _ (c : Primitives) (sorter : SliceSort nonce_less) where
  Outcome-IsChain :
      (r : Readings) (arrivals : List Str) (busy : Bool) (hash : Str) (s : State) (o : Option State)
      (s' : State)
      → Outcome c sorter r arrivals busy hash s o
      → o ≡ some s'
      → IsChain c s.blockchain
      → IsChain c s'.blockchain
  Outcome-IsChain r arrivals busy hash s _ s' (Outcome.idle why) e h =
      subst (λ t. IsChain c t.blockchain) (some-injective _ _ e) h
  Outcome-IsChain r arrivals busy hash s _ s' (Outcome.rejected no') e h =
      subst (λ t. IsChain c t.blockchain) (some-injective _ _ e)
        (subst (IsChain c) (sym (slash_validator-blockchain r.slashing _ (pos 10) s)) h)
  Outcome-IsChain r arrivals busy hash s _ s' (Outcome.panicked stop) e h = cc
  Outcome-IsChain r arrivals busy hash s _ s' (Outcome.appended w final s1 vote found ran) e h =
      let same =
        ap (λ (t : State). t.blockchain) (process-commit c sorter arrivals s.mempool final s s1 ran)
        ∙ commit-blockchain final s in
      subst (λ t. IsChain c t.blockchain) (some-injective _ _ e)
        (subst (IsChain c) (sym (remove_committed-blockchain c final _))
          (add_block_with_txs-IsChain c r.genesis_made r.block_made (proposer c r hash s) final s1
            (subst (IsChain c) (sym same) h)).0)

  -- A call of CommitBlock that does not panic keeps the chain linked, however it ends.
  pub commit_block-IsChain :
      (r : Readings) (arrivals : List Str) (n n' : Node)
      → commit_block c sorter r arrivals n ≡ some n'
      → IsChain c n.ledger.blockchain
      → IsChain c n'.ledger.blockchain
  commit_block-IsChain r arrivals n n' e h =
      Outcome-IsChain r arrivals n.committing _ n.ledger _ n'.ledger
        (commit_block-Outcome c sorter r arrivals n) (ap (Option.map (λ (m : Node). m.ledger)) e) h

  module _ (r : Readings) (arrivals : List Str) (busy : Bool) (hash : Str) (s : State) where
    appended-Minted :
        (w : Wallet) (final : List Transaction) (s1 : State)
        → lookup (proposer c r hash s).address s.validator_wallets ≡ some w
        → process_tx_list_parallel c sorter arrivals s.mempool s ≡ some (final, s1)
        → IsArrivalOrder s.mempool arrivals
        → All IsPlain s.mempool
        → IsSound s.balances
        → total s.balances +ℤ pos 5 <ℤ pos (2 ^ 63)
        → Minted c r hash s (
            remove_committed_from_mempool c final
              (add_block_with_txs c r.genesis_made r.block_made (proposer c r hash s) final s1).1)
    appended-Minted w final s1 found ran p plain h room =
        let v = proposer c r hash s in
        let (made, s2) = add_block_with_txs c r.genesis_made r.block_made v final s1 in
        let batch = process-IsSound c sorter arrivals s.mempool s final s1 p ran plain h in
        let fine = process-All c sorter IsPlain arrivals s.mempool s final s1 ran plain in
        let fits : total s1.balances +ℤ fees final +ℤ pos 5 <ℤ pos (2 ^ 63) =
          omega (int_laws, eq_le batch.1) in
        let now0 = r.genesis_made in
        let now1 = r.block_made in
        let block = add_block_with_txs-total c now0 now1 v final s1 fine batch.0 fits in
        let (grown, holds) = add_block_with_txs-appended c now0 now1 v final s1 in
        let same =
          ap (λ (t : State). t.blockchain)
            (process-commit c sorter arrivals s.mempool final s s1 ran)
          ∙ commit-blockchain final s in
        let kept = remove_committed-balances c final s2 in
        record {
          wallet = w;
          its_wallet = found;
          block = made;
          appends =
              remove_committed-blockchain c final s2
              ∙ grown
              ∙ ap (λ bs. bs ++ (made ∷ [])) (with_genesis-blockchain c now0 s1 s same);
          executed = view s1;
          executes =
              subst (λ txs. ExecutesAll c (view s) txs (view s1)) (sym holds)
                (process-ExecutesAll c sorter arrivals s.mempool s final s1 p ran plain h);
          pays = λ k.
              ap (get k) kept
              ∙ add_block_with_txs-paid c now0 now1 v final s1 fine batch.0 fits k
              ∙ ap (λ txs. get k s1.balances +ℤ only_at v.address k (fees txs +ℤ pos 5))
                  (sym holds);
          nonces = λ k. ap (get k) (
              remove_committed-nonce_table c final s2
              ∙ add_block_with_txs-nonce_table c now0 now1 v final s1);
          sound = subst IsSound (sym kept) block.0;
          raised = ap total kept ∙ eq_of_parts _ _ (omega (int_laws, eq_le block.1, eq_le batch.1));
        }

    Outcome-Supplied :
        (o : Option State) (s' : State)
        → Outcome c sorter r arrivals busy hash s o
        → o ≡ some s'
        → IsArrivalOrder s.mempool arrivals
        → All IsPlain s.mempool
        → IsSound s.balances
        → total s.balances +ℤ pos 5 <ℤ pos (2 ^ 63)
        → Supplied c r busy hash s s'
    Outcome-Supplied _ s' (Outcome.idle why) e p plain h room =
        untouched why (sym (some-injective _ _ e))
    Outcome-Supplied _ s' (Outcome.rejected no') e p plain h room =
        slashed no' (sym (some-injective _ _ e))
    Outcome-Supplied _ s' (Outcome.panicked stop) e p plain h room = cc
    Outcome-Supplied _ s' (Outcome.appended w final s1 vote found ran) e p plain h room =
        minted vote (
          subst (Minted c r hash s) (some-injective _ _ e)
            (appended-Minted w final s1 found ran p plain h room))

  -- When no balance is negative, the balances and the reward together fit an `int`, no transaction
  -- in the mempool has a negative amount or fee or an overflowing cost, and the parts of the batch
  -- arrive in some order, each once, then a call of CommitBlock that does not panic does one of
  -- three things. It leaves the ledger as it was, because another call runs, no transaction waits,
  -- there is no validator, or the slot's proposer has no wallet. Or a third of the validators or
  -- more is barred from voting, and it slashes the proposer by 10. Or less than a third is barred,
  -- and it appends one block, after a genesis block if the chain was empty: the block's
  -- transactions can be executed one at a time from the accounts before, each signed, next by its
  -- nonce and paid for; the accounts after are those, with the fees and 5 added to the proposer's;
  -- so no balance is negative and their total is more by 5.
  pub commit_block-Supplied :
      (r : Readings) (arrivals : List Str) (n n' : Node)
      → commit_block c sorter r arrivals n ≡ some n'
      → IsArrivalOrder n.ledger.mempool arrivals
      → All IsPlain n.ledger.mempool
      → IsSound n.ledger.balances
      → total n.ledger.balances +ℤ pos 5 <ℤ pos (2 ^ 63)
      → Supplied c r n.committing (slot_hash c r n) n.ledger n'.ledger
  commit_block-Supplied r arrivals n n' e p plain h room =
      Outcome-Supplied r arrivals n.committing (slot_hash c r n) n.ledger _ n'.ledger
        (commit_block-Outcome c sorter r arrivals n) (ap (Option.map (λ (m : Node). m.ledger)) e) p
        plain h room
