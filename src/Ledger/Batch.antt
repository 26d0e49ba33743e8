-- ===== src/Ledger/Batch.antt =====
-- ProcessTxListParallel of ledger/transaction.go: a batch of transactions is split by sender, each
-- part is sorted by nonce and run by a worker over a snapshot, and what the workers accept is
-- committed at once. Which worker takes which part does not matter to the result; the order in
-- which the parts arrive on the channel is an argument, and so is what `sort.Slice` does.
pub mod Worker
pub mod Gather
pub mod Arrival
pub mod Nonces
pub mod Conservation
pub mod Order
pub mod Progress
pub mod Refinement
pub mod Forged
use mathlib.Core.List.{Permᴰ}
use mathlib.Core.Option
use hyperlux_chain.Prelude.{
  ◌≡◌, Bool, true, false, not, Option, none, some, List, [], ◌∷◌, ◌++◌, length, is_empty, ite,
  if◌then◌else◌, ◌==◌,
}
use hyperlux_chain.Prelude.Int.{ℤ, pos, ltb_ℤ}
use hyperlux_chain.Prelude.Word64.{add64, sub64, eqb_ℤ}
use hyperlux_chain.Prelude.Str.{Str, Str_discrete}
use hyperlux_chain.Prelude.Dict.{get, insert}
use hyperlux_chain.Primitives.{Primitives, SliceSort}
use hyperlux_chain.Ledger.Types.{Transaction, State}
use hyperlux_chain.Ledger.Transaction.{verify_transaction}
use hyperlux_chain.Ledger.Mempool.{mempool_snapshot, contains}

abbrev pub nonce_less : Transaction → Transaction → Bool
nonce_less t u = ltb_ℤ t.nonce u.nonce

abbrev pub cost : Transaction → ℤ
cost tx = add64 tx.amount tx.fee

-- The keys of `partitions`: the senders, each once.
unfoldable pub senders_after : List Str → List Transaction → List Str
unfolding contains
senders_after seen [] = []
senders_after seen (tx ∷ txs) =
    let old = senders_after seen txs in
    let new = tx.from ∷ senders_after (tx.from ∷ seen) txs in
    if contains tx.from seen then old else new

unfoldable pub senders : List Transaction → List Str
unfolding senders_after
senders = senders_after []

-- `partitions[sender]` before it is sorted.
unfoldable pub partition : Str → List Transaction → List Transaction
partition a [] = []
partition a (tx ∷ txs) = ite (Str_discrete tx.from a) (tx ∷ partition a txs) (partition a txs)

-- The body of a worker's loop over one part, from the local nonce and the local balance on.
unfoldable pub run_worker : Primitives → ℤ → ℤ → List Transaction → Option (List Transaction)
run_worker c local_nonce local_bal [] = some []
run_worker c local_nonce local_bal (tx ∷ txs) =
    let rest = Option.map (◌∷◌ tx) (run_worker c tx.nonce (sub64 local_bal (cost tx)) txs) in
    if not (eqb_ℤ tx.nonce (add64 local_nonce (pos 1)))
    then some []
    else elim (verify_transaction c tx) [
      | none ↦ none
      | some false ↦ some []
      | some true ↦ if ltb_ℤ local_bal (cost tx) then some [] else rest
    ]

-- The commit of one accepted transaction.
unfoldable pub commit_tx : Transaction → State → State
commit_tx tx s =
    let debited = insert tx.from (sub64 (get tx.from s.balances) (cost tx)) s.balances in
    record s {
      balances = insert tx.to (add64 (get tx.to debited) tx.amount) debited;
      nonce_table = insert tx.from tx.nonce s.nonce_table;
    }

unfoldable pub commit : List Transaction → State → State
commit [] s = s
commit (tx ∷ txs) s = commit txs (commit_tx tx s)

module _ (c : Primitives) (sorter : SliceSort nonce_less) where
  -- What the worker that takes the part of one sender sends to the channel.
  unfoldable pub accepted_of : State → List Transaction → Str → Option (List Transaction)
  accepted_of s txs a =
      run_worker c (get a s.nonce_table) (get a s.balances) (sorter.sort (partition a txs))

  -- The parts as they arrive. A panic in a worker ends the process.
  unfoldable pub gather : State → List Transaction → List Str → Option (List Transaction)
  gather s txs [] = some []
  gather s txs (a ∷ as') =
      let rest = gather s txs as' in
      elim (accepted_of s txs a) [ none ↦ none | some acc ↦ Option.map (◌++◌ acc) rest ]

  pub finish : State → List Transaction → List Transaction × State
  finish s final = (final, if is_empty final then s else commit final s)

  unfoldable pub process_tx_list_parallel :
      List Str → List Transaction → State → Option (List Transaction × State)
  unfolding finish
  process_tx_list_parallel arrivals txs s =
      if is_empty txs then some ([], s) else Option.map (finish s) (gather s txs arrivals)

  unfoldable pub process_mempool_parallel : List Str → State → Option (List Transaction × State)
  process_mempool_parallel arrivals s = process_tx_list_parallel arrivals (mempool_snapshot s) s

-- The parts arrive in some order, each once.
abbrev pub IsArrivalOrder : List Transaction → List Str → Type 0
IsArrivalOrder txs arrivals = Permᴰ (senders txs) arrivals
