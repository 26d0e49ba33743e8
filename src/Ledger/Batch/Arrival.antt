-- ===== src/Ledger/Batch/Arrival.antt =====
-- The parts of a batch and the order in which they arrive (ledger/transaction.go,
-- ProcessTxListParallel).

use hyperlux_chain.Prelude.{
  ◌≡◌, ◌≢◌, refl, sym, ap, subst, ◌∙◌, inl, inr, true, some, List, [], ◌∷◌, All, IsNodup,
  IsNodup-perm, arith, map-eq_some, Bool-cases,
}
use hyperlux_chain.Prelude.Str.{Str}
use hyperlux_chain.Primitives.{Primitives, SliceSort}
use hyperlux_chain.Ledger.Types.{Transaction, State}
use hyperlux_chain.Ledger.Mempool.{contains}
use hyperlux_chain.Ledger.Batch.{
  nonce_less, senders, senders_after, gather, finish, commit, process_tx_list_parallel,
  IsArrivalOrder,
}
use hyperlux_chain.Ledger.Batch.Gather.{IsBatch, gather-IsBatch, gather-All}

senders_after-fresh :
    (k : Str) (seen : List Str) (txs : List Transaction)
    → contains k seen ≡ true
    → All (λ a. a ≢ k) (senders_after seen txs)
unfolding senders_after
senders_after-fresh k seen [] h = tt
senders_after-fresh k seen (tx ∷ txs) h = elim (Bool-cases (contains tx.from seen)) [
  | inl old ↦ rw old (senders_after-fresh k seen txs h)
  | inr new ↦ rw new (
    λ e. cc (subst (λ j. contains j seen ≡ true) (sym e) h),
    senders_after-fresh k (tx.from ∷ seen) txs (ground arith),
  )
]

senders_after-IsNodup :
    (seen : List Str) (txs : List Transaction) → IsNodup (senders_after seen txs)
unfolding senders_after
senders_after-IsNodup seen [] = tt
senders_after-IsNodup seen (tx ∷ txs) = elim (Bool-cases (contains tx.from seen)) [
  | inl old ↦ rw old (senders_after-IsNodup seen txs)
  | inr new ↦ rw new (
    senders_after-fresh tx.from (tx.from ∷ seen) txs (ground arith),
    senders_after-IsNodup (tx.from ∷ seen) txs,
  )
]

pub arrivals-IsNodup :
    (txs : List Transaction) (arrivals : List Str) → IsArrivalOrder txs arrivals → IsNodup arrivals
unfolding senders
arrivals-IsNodup txs arrivals p = IsNodup-perm p (senders_after-IsNodup [] txs)

-- What a batch that did not panic has done: runs of distinct senders were committed.
pub record Processed (c : Primitives) (s : State) (final : List Transaction) (s' : State)
    : Type 0 where
  pub parts : List Str
  pub distinct : IsNodup parts
  pub batch : IsBatch c s parts final
  pub committed : s' ≡ commit final s

module _ (c : Primitives) (sorter : SliceSort nonce_less) where
  pub finish-commit :
      (s : State) (final : List Transaction) → finish c sorter s final ≡ (final, commit final s)
  unfolding finish commit
  finish-commit s [] = refl
  finish-commit s (tx ∷ txs) = refl

  pub process-gather :
      (tx : Transaction) (txs : List Transaction) (arrivals : List Str) (s : State)
      (final : List Transaction) (s' : State)
      → process_tx_list_parallel c sorter arrivals (tx ∷ txs) s ≡ some (final, s')
      → (gather c sorter s (tx ∷ txs) arrivals ≡ some final) × (s' ≡ commit final s)
  unfolding process_tx_list_parallel
  process-gather tx txs arrivals s final s' e =
      let (f, ran, made) =
        map-eq_some (finish c sorter s) (gather c sorter s (tx ∷ txs) arrivals) (final, s') e in
      let both = sym (finish-commit s f) ∙ made in
      (cc (ap (λ (p : List Transaction × State). p.0) both), ground (arith, both))

  -- What a batch that did not panic returned and did to the state.
  pub process-Processed :
      (arrivals : List Str) (txs : List Transaction) (s : State) (final : List Transaction)
      (s' : State)
      → IsArrivalOrder txs arrivals
      → process_tx_list_parallel c sorter arrivals txs s ≡ some (final, s')
      → Processed c s final s'
  unfolding process_tx_list_parallel commit
  process-Processed arrivals [] s final s' p e = record {
    parts = [];
    distinct = tt;
    batch = ground arith;
    committed = ground arith;
  }
  process-Processed arrivals (tx ∷ txs) s final s' p e =
      let (ran, committed) = process-gather tx txs arrivals s final s' e in
      record {
        parts = arrivals;
        distinct = arrivals-IsNodup (tx ∷ txs) arrivals p;
        batch = gather-IsBatch c sorter s (tx ∷ txs) arrivals final ran;
        committed = committed;
      }

  pub process-All :
      (P : Transaction → Type 0) (arrivals : List Str) (txs : List Transaction) (s : State)
      (final : List Transaction) (s' : State)
      → process_tx_list_parallel c sorter arrivals txs s ≡ some (final, s')
      → All P txs
      → All P final
  unfolding process_tx_list_parallel
  process-All P arrivals [] s final s' e h = subst (All P) {x = []} (ground arith) tt
  process-All P arrivals (tx ∷ txs) s final s' e h =
      gather-All c sorter s (tx ∷ txs) P arrivals final
        (process-gather tx txs arrivals s final s' e).0 h
