-- ===== src/Ledger/Mempool.antt =====
-- The mempool helpers of ledger/transaction.go, and GetMempoolSize of ledger/state.go. The locks
-- make each of them one step on the state.
pub mod Admission
pub mod Removal
use hyperlux_chain.Prelude.{
  Option, none, some, Bool, true, false, List, [], ◌∷◌, map, length, is_empty, ite, if◌then◌else◌,
  ◌==◌, ◌||◌,
}
use hyperlux_chain.Prelude.Int.{ℤ, pos}
use hyperlux_chain.Prelude.Str.{Str, Str_discrete}
use hyperlux_chain.Primitives.{Primitives}
use hyperlux_chain.Ledger.Types.{Transaction, State}
use hyperlux_chain.Ledger.Transaction.{
  hash_transaction, Ingest, accepted, insufficient_balance, invalid_signature, panicked,
  invalid_nonce, validate_and_add_to_mempool,
}

unfoldable pub mempool_snapshot : State → List Transaction
mempool_snapshot s = s.mempool

unfoldable pub get_mempool_size : State → ℤ
get_mempool_size s = pos (length s.mempool)

-- `_, ok := toDelete[hash]`
unfoldable pub contains : Str → List Str → Bool
contains h [] = false
contains h (k ∷ ks) = ite (Str_discrete k h) true (contains h ks)

unfoldable pub keep_others : Primitives → List Str → List Transaction → List Transaction
keep_others c to_delete [] = []
keep_others c to_delete (tx ∷ txs) =
    let rest = keep_others c to_delete txs in
    if contains (hash_transaction c tx) to_delete then rest else tx ∷ rest

unfoldable pub remove_committed_from_mempool : Primitives → List Transaction → State → State
remove_committed_from_mempool c committed s =
    if is_empty committed
    then s
    else let to_delete = map (hash_transaction c) committed in
      if is_empty s.mempool then s else record s { mempool = keep_others c to_delete s.mempool }

unfoldable pub clear_mempool : State → State
clear_mempool s = record s { mempool = [] }

-- The loop of an ingress shard over what arrives on its channel: every error is dropped, and a
-- panic, here `none`, ends the process.
unfoldable pub ingest_next : Ingest × State → Option State
ingest_next (panicked, s) = none
ingest_next (accepted, s) = some s
ingest_next (insufficient_balance, s) = some s
ingest_next (invalid_signature, s) = some s
ingest_next (invalid_nonce e g, s) = some s

unfoldable pub ingest_loop : Primitives → List Transaction → State → Option State
unfolding ingest_next
ingest_loop c [] s = some s
ingest_loop c (tx ∷ txs) s = elim (ingest_next (validate_and_add_to_mempool c tx s)) [
  | none ↦ none
  | some s' ↦ ingest_loop c txs s'
]
