-- ===== src/Ledger/Mempool/Admission.antt =====
-- ValidateAndAddToMempool (ledger/transaction.go): every branch of it, and what a mempool that it
-- has filled looks like.
use mathlib.Core.Option.{some-injective}
use hyperlux_chain.Prelude.{
  ◌≤◌, ◌≡◌, ◌≢◌, refl, sym, ap, subst, ◌∙◌, inl, inr, Bool, true, false, Option, none, some, List,
  [], ◌∷◌, ◌++◌, All, All-append, All-map, arith, Bool-cases, Option-cases,
}
use hyperlux_chain.Prelude.Int.{ltb_ℤ, ◌≤ℤ◌, ◌<ℤ◌}
use hyperlux_chain.Prelude.Word64.{add64, eqb_ℤ}
use hyperlux_chain.Prelude.Str.{Str}
use hyperlux_chain.Prelude.Dict.{get}
use hyperlux_chain.Primitives.{Primitives, SliceSort}
use hyperlux_chain.Ledger.Types.{Transaction, State}
use hyperlux_chain.Ledger.Transaction.{
  get_next_nonce, verify_transaction, Ingest, accepted, insufficient_balance, invalid_signature,
  panicked, invalid_nonce, ingest_signed, validate_and_add_to_mempool,
}
use hyperlux_chain.Ledger.Mempool.{mempool_snapshot, ingest_next, ingest_loop}
use hyperlux_chain.Ledger.Batch.{nonce_less, IsArrivalOrder, process_mempool_parallel}
use hyperlux_chain.Ledger.Batch.Nonces.{count_from}
use hyperlux_chain.Ledger.Batch.Progress.{process-one_nonce}

-- What each result of the call says of the transaction and of the state that it leaves.
abbrev pub Explains : Primitives → Transaction → State → Ingest × State → Type 0
Explains c tx s (accepted, s') =
    (tx.nonce ≡ get_next_nonce tx.from s)
    × (add64 tx.amount tx.fee ≤ℤ get tx.from s.balances)
    × (verify_transaction c tx ≡ some true)
    × (s' ≡ record s { mempool = s.mempool ++ (tx ∷ []) })
Explains c tx s (invalid_nonce expected got, s') =
    (expected ≡ get_next_nonce tx.from s) × (got ≡ tx.nonce) × (got ≢ expected) × (s' ≡ s)
Explains c tx s (insufficient_balance, s') =
    (tx.nonce ≡ get_next_nonce tx.from s)
    × (get tx.from s.balances <ℤ add64 tx.amount tx.fee)
    × (s' ≡ s)
Explains c tx s (invalid_signature, s') =
    (tx.nonce ≡ get_next_nonce tx.from s)
    × (add64 tx.amount tx.fee ≤ℤ get tx.from s.balances)
    × (verify_transaction c tx ≡ some false)
    × (s' ≡ s)
Explains c tx s (panicked, s') =
    (tx.nonce ≡ get_next_nonce tx.from s)
    × (add64 tx.amount tx.fee ≤ℤ get tx.from s.balances)
    × (verify_transaction c tx ≡ none)
    × (s' ≡ s)

ingest_signed-Explains :
    (c : Primitives) (tx : Transaction) (s : State) (v : Option Bool)
    → tx.nonce ≡ get_next_nonce tx.from s
    → add64 tx.amount tx.fee ≤ℤ get tx.from s.balances
    → verify_transaction c tx ≡ v
    → Explains c tx s (ingest_signed v tx s)
unfolding ingest_signed
ingest_signed-Explains c tx s none n b e = (n, b, e, refl)
ingest_signed-Explains c tx s (some true) n b e = (n, b, e, refl)
ingest_signed-Explains c tx s (some false) n b e = (n, b, e, refl)

-- The call admits a transaction, at the end of the mempool, exactly when its nonce is the account's
-- next, the balance covers the cost and the signature verifies. It names the first of these that
-- fails, in this order, and then leaves the state as it was; a key of the wrong length panics.
pub validate-Explains :
    (c : Primitives) (tx : Transaction) (s : State)
    → Explains c tx s (validate_and_add_to_mempool c tx s)
unfolding validate_and_add_to_mempool get_next_nonce
validate-Explains c tx s = elim (Bool-cases (eqb_ℤ tx.nonce (get_next_nonce tx.from s))) [
  | inl same ↦ elim (Bool-cases (ltb_ℤ (get tx.from s.balances) (add64 tx.amount tx.fee))) [
    | inl short ↦ rw (same, short) (ground arith, ground arith, refl)
    | inr covered ↦
        rw (same, covered)
          (ingest_signed-Explains c tx s (verify_transaction c tx) (ground arith) (ground arith)
            refl)
  ]
  | inr other ↦ rw other (refl, refl, ground arith, refl)
]

-- Every waiting transaction carries its sender's next nonce.
abbrev pub IsFresh : State → Type 0
IsFresh s = All (λ t. t.nonce ≡ get_next_nonce t.from s) s.mempool

Explains-IsFresh :
    (c : Primitives) (tx : Transaction) (s : State) (r : Ingest × State)
    → Explains c tx s r
    → IsFresh s
    → IsFresh r.1
unfolding get_next_nonce
Explains-IsFresh c tx s (accepted, s') (n, b, e, q) h =
    subst IsFresh (sym q)
      (All-append (λ t. t.nonce ≡ get_next_nonce t.from s) s.mempool (tx ∷ []) h (n, tt))
Explains-IsFresh c tx s (invalid_nonce x y, s') (a, b, d, q) h = subst IsFresh (sym q) h
Explains-IsFresh c tx s (insufficient_balance, s') (a, b, q) h = subst IsFresh (sym q) h
Explains-IsFresh c tx s (invalid_signature, s') (a, b, d, q) h = subst IsFresh (sym q) h
Explains-IsFresh c tx s (panicked, s') (a, b, d, q) h = subst IsFresh (sym q) h

ingest_next-state : (r : Ingest × State) (s' : State) → ingest_next r ≡ some s' → r.1 ≡ s'
unfolding ingest_next
ingest_next-state (accepted, s) s' e = some-injective _ _ e
ingest_next-state (invalid_nonce x y, s) s' e = some-injective _ _ e
ingest_next-state (insufficient_balance, s) s' e = some-injective _ _ e
ingest_next-state (invalid_signature, s) s' e = some-injective _ _ e
ingest_next-state (panicked, s) s' e = cc

-- Whatever arrives, an ingress shard keeps the mempool such that each waiting transaction carries
-- its sender's next nonce.
pub ingest_loop-IsFresh :
    (c : Primitives) (txs : List Transaction) (s s' : State)
    → ingest_loop c txs s ≡ some s'
    → IsFresh s
    → IsFresh s'
unfolding ingest_loop
ingest_loop-IsFresh c [] s s' e h = subst IsFresh (some-injective _ _ e) h
ingest_loop-IsFresh c (tx ∷ txs) s s' e h =
    elim (Option-cases (ingest_next (validate_and_add_to_mempool c tx s))) [
      | inl died ↦ absurd (ground arith)
      | inr (m, went) ↦ ingest_loop-IsFresh c txs m s' (rw (went, ingest_loop) at e) (
          subst IsFresh (ingest_next-state _ m went)
            (Explains-IsFresh c tx s _ (validate-Explains c tx s) h))
    ]

-- So a batch over a mempool that was filled from empty commits at most one transaction of each
-- account, however many of them were admitted.
pub process_mempool-one_each :
    (c : Primitives) (sorter : SliceSort nonce_less) (txs : List Transaction) (s s' : State)
    (arrivals : List Str) (final : List Transaction) (s'' : State) (a : Str)
    → s.mempool ≡ []
    → ingest_loop c txs s ≡ some s'
    → IsArrivalOrder s'.mempool arrivals
    → process_mempool_parallel c sorter arrivals s' ≡ some (final, s'')
    → count_from a final ≤ 1
unfolding process_mempool_parallel mempool_snapshot
process_mempool-one_each c sorter txs s s' arrivals final s'' a empty filled p e =
    process-one_nonce c sorter arrivals s'.mempool s' final s'' a (get_next_nonce a s') p e (
      All-map (λ t n q. n ∙ ap (λ b. get_next_nonce b s') q) s'.mempool
        (ingest_loop-IsFresh c txs s s' filled
          (subst (All (λ t. t.nonce ≡ get_next_nonce t.from s)) (sym empty) tt)))
