-- ===== src/Ledger/Batch/Nonces.antt =====
-- How ProcessTxListParallel (ledger/transaction.go) moves the nonces.
use hyperlux_chain.Prelude.{
  ℕ, suc, ◌+◌, ◌≡◌, ◌≢◌, refl, sym, ap, subst, ◌∙◌, ite, if_pos, if_neg, some, List, [], ◌∷◌, ◌++◌,
  length, All, All-append, All-map, IsNodup, arith,
}
use hyperlux_chain.Prelude.Int.{ℤ, pos, ◌+ℤ◌, zero_right, int_laws}
use hyperlux_chain.Prelude.Word64.{
  add64, sub64, wrap64, wrap64_id, wrap64-InRange, wrap64-wrap64_left, InRange,
}
use hyperlux_chain.Prelude.Str.{Str, Str_discrete}
use hyperlux_chain.Prelude.Dict.{get, insert, get-insert_self, get-insert_ne}
use hyperlux_chain.Primitives.{Primitives, SliceSort}
use hyperlux_chain.Ledger.Types.{Transaction, State}
use hyperlux_chain.Ledger.Batch.{
  nonce_less, cost, commit_tx, commit, process_tx_list_parallel, IsArrivalOrder,
}
use hyperlux_chain.Ledger.Batch.Worker.{IsRun, nonce_after}
use hyperlux_chain.Ledger.Batch.Gather.{IsFrom, IsBatch}
use hyperlux_chain.Ledger.Batch.Arrival.{process-Processed}

-- How many of the transactions an account sent.
unfoldable pub count_from : Str → List Transaction → ℕ
count_from a [] = 0
count_from a (tx ∷ txs) = ite (Str_discrete tx.from a) (suc (count_from a txs)) (count_from a txs)

-- The nonce that the account's last transaction leaves, or the one before.
pub last_nonce : Str → List Transaction → ℤ → ℤ
last_nonce a [] n = n
last_nonce a (tx ∷ txs) n = last_nonce a txs (ite (Str_discrete tx.from a) tx.nonce n)

commit_tx-nonce :
    (a : Str) (tx : Transaction) (s : State)
    → get a (commit_tx tx s).nonce_table
      ≡ ite (Str_discrete tx.from a) tx.nonce (get a s.nonce_table)
unfolding commit_tx
commit_tx-nonce a tx s = elim (Str_discrete tx.from a) [
  | yes e ↦ rw (if_pos _ e) (
      subst (λ b. get b (insert tx.from tx.nonce s.nonce_table) ≡ tx.nonce) e
        (get-insert_self tx.from tx.nonce s.nonce_table))
  | no ne ↦ rw (if_neg _ ne) (get-insert_ne tx.from a tx.nonce s.nonce_table ne)
]

commit-nonce :
    (a : Str) (txs : List Transaction) (s : State)
    → get a (commit txs s).nonce_table ≡ last_nonce a txs (get a s.nonce_table)
unfolding commit last_nonce
commit-nonce a [] s = refl
commit-nonce a (tx ∷ txs) s = rw (← commit_tx-nonce a tx s) (commit-nonce a txs (commit_tx tx s))

last_nonce-append :
    (a : Str) (xs ys : List Transaction) (n : ℤ)
    → last_nonce a (xs ++ ys) n ≡ last_nonce a ys (last_nonce a xs n)
unfolding last_nonce
last_nonce-append a [] ys n = refl
last_nonce-append a (x ∷ xs) ys n = last_nonce-append a xs ys _

pub count_from-append :
    (a : Str) (xs ys : List Transaction)
    → count_from a (xs ++ ys) ≡ count_from a xs + count_from a ys
unfolding count_from
count_from-append a [] ys = omega arith
count_from-append a (x ∷ xs) ys = ground (arith, count_from-append a xs ys)

-- An account that sent none of the transactions.
abbrev pub IsAbsent : Str → List Transaction → Type 0
IsAbsent a = All (λ tx. tx.from ≢ a)

pub absent-nonce :
    (a : Str) (txs : List Transaction) (n : ℤ)
    → IsAbsent a txs
    → (last_nonce a txs n ≡ n) × (count_from a txs ≡ 0)
unfolding last_nonce count_from
absent-nonce a [] n h = (refl, refl)
absent-nonce a (tx ∷ txs) n h = ground (arith, absent-nonce a txs n h.1)

pub own-nonce :
    (a : Str) (txs : List Transaction) (n : ℤ)
    → All (IsFrom a) txs
    → (last_nonce a txs n ≡ nonce_after n txs) × (count_from a txs ≡ length txs)
unfolding last_nonce count_from
own-nonce a [] n h = (refl, refl)
own-nonce a (tx ∷ txs) n h = ground (arith, own-nonce a txs tx.nonce h.1)

run-nonce :
    (c : Primitives) (n b : ℤ) (txs : List Transaction)
    → InRange n
    → IsRun c n b txs
    → nonce_after n txs ≡ add64 n (pos (length txs))
unfolding add64
run-nonce c n b [] r h = sym (rw (zero_right n) (wrap64_id n r))
run-nonce c n b (tx ∷ txs) r (next, h) =
    run-nonce c tx.nonce (sub64 b (cost tx)) txs (rw next.0 (wrap64-InRange _)) h
    ∙ (rw next.0 (wrap64-wrap64_left (n +ℤ pos 1) (pos (length txs)) ∙ ap wrap64 (omega int_laws)))

zero_nonce : (n : ℤ) → InRange n → add64 n (pos 0) ≡ n
unfolding add64
zero_nonce n r = rw (zero_right n) (wrap64_id n r)

pub batch-IsAbsent :
    (c : Primitives) (s : State) (a : Str) (parts : List Str) (final : List Transaction)
    → All (λ b. b ≢ a) parts
    → IsBatch c s parts final
    → IsAbsent a final
batch-IsAbsent c s a [] final h b = subst (IsAbsent a) (sym b) tt
batch-IsAbsent c s a (p ∷ parts) final h (acc, rest, e, own, run, b) = subst (IsAbsent a) (sym e) (
    All-append (λ tx. tx.from ≢ a) acc rest (All-map (λ tx q r. h.0 (sym q ∙ r)) acc own)
      (batch-IsAbsent c s a parts rest h.1 b))

-- The last nonce of an account in a batch, when the account's nonce in the snapshot is `n`.
batch-nonce :
    (c : Primitives) (s : State) (a : Str) (parts : List Str) (final : List Transaction)
    → InRange (get a s.nonce_table)
    → IsNodup parts
    → IsBatch c s parts final
    → last_nonce a final (get a s.nonce_table)
      ≡ add64 (get a s.nonce_table) (pos (count_from a final))
unfolding last_nonce count_from
batch-nonce c s a [] final r d b = rw b (ground (arith, zero_nonce (get a s.nonce_table) r))
batch-nonce c s a (p ∷ parts) final r d (acc, rest, e, own, run, b) =
    rw (e, last_nonce-append a acc rest (get a s.nonce_table), count_from-append a acc rest)
      (elim (Str_discrete p a) as (λ _. Next) [
        | yes same ↦
            let sent = own-nonce a acc n (subst (λ q. All (IsFrom q) acc) same own) in
            let others =
              absent-nonce a rest (last_nonce a acc n) (
                batch-IsAbsent c s a parts rest (subst (λ q. All (λ y. y ≢ q) parts) same d.0) b) in
            others.0
            ∙ sent.0
            ∙ run-nonce c n (get a s.balances) acc r
                (subst (λ q. IsRun c (get q s.nonce_table) (get q s.balances) acc) same run)
            ∙ ap (λ k. add64 n (pos k)) (omega (arith, sent.1, others.1))
        | no other ↦
            let none_here =
              absent-nonce a acc n (All-map (λ tx q r'. other (sym q ∙ r')) acc own) in
            rw none_here.0 (
              batch-nonce c s a parts rest r d.1 b
              ∙ ap (λ k. add64 n (pos k)) (omega (arith, none_here.1)))
      ])
  where
    n : ℤ
    n = get a s.nonce_table

    Next : Type 0
    Next =
        last_nonce a rest (last_nonce a acc n)
        ≡ add64 n (pos (count_from a acc + count_from a rest))

module _ (c : Primitives) (sorter : SliceSort nonce_less) where
  -- After a batch the nonce of every account has advanced by exactly the number of the account's
  -- transactions that were committed, whatever the order of arrival.
  pub process-nonces :
      (arrivals : List Str) (txs : List Transaction) (s : State) (final : List Transaction)
      (s' : State) (a : Str)
      → IsArrivalOrder txs arrivals
      → process_tx_list_parallel c sorter arrivals txs s ≡ some (final, s')
      → InRange (get a s.nonce_table)
      → get a s'.nonce_table ≡ add64 (get a s.nonce_table) (pos (count_from a final))
  process-nonces arrivals txs s final s' a p e r =
      let done = process-Processed c sorter arrivals txs s final s' p e in
      ap (λ (t : State). get a t.nonce_table) done.committed
      ∙ commit-nonce a final s
      ∙ batch-nonce c s a done.parts final r done.distinct done.batch
