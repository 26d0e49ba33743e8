-- ===== src/Ledger/Batch/Gather.antt =====
-- What the workers of ProcessTxListParallel (ledger/transaction.go) send back together.
use hyperlux_chain.Prelude.{
  ◌≡◌, sym, subst, inl, inr, some, List, [], ◌∷◌, ◌++◌, All, All-append, All-append_left, All-perm,
  arith, ite, Option-cases, map-eq_some,
}
use hyperlux_chain.Prelude.Str.{Str, Str_discrete}
use hyperlux_chain.Prelude.Dict.{get}
use hyperlux_chain.Primitives.{Primitives, SliceSort}
use hyperlux_chain.Ledger.Types.{Transaction, State}
use hyperlux_chain.Ledger.Batch.{nonce_less, partition, accepted_of, gather}
use hyperlux_chain.Ledger.Batch.Worker.{IsRun, Ran, run_worker-Ran}

abbrev pub IsFrom : Str → Transaction → Type 0
IsFrom a tx = tx.from ≡ a

-- A run of each sender in the order of arrival, over the nonces and balances of the snapshot.
abbrev pub IsBatch : Primitives → State → List Str → List Transaction → Type 0
IsBatch c s [] final = final ≡ []
IsBatch c s (a ∷ as') final =
    (acc : List Transaction) × (rest : List Transaction) × (final ≡ acc ++ rest)
    × All (IsFrom a) acc
    × IsRun c (get a s.nonce_table) (get a s.balances) acc
    × IsBatch c s as' rest

pub partition-IsFrom : (a : Str) (txs : List Transaction) → All (IsFrom a) (partition a txs)
unfolding partition
partition-IsFrom a [] = tt
partition-IsFrom a (tx ∷ txs) =
    elim (Str_discrete tx.from a)
      as (λ d. All (IsFrom a) (ite d (tx ∷ partition a txs) (partition a txs))) [
        | yes e ↦ (e, partition-IsFrom a txs)
        | no ne ↦ partition-IsFrom a txs
      ]

pub partition-All :
    (P : Transaction → Type 0) (a : Str) (txs : List Transaction)
    → All P txs
    → All P (partition a txs)
unfolding partition
partition-All P a [] h = tt
partition-All P a (tx ∷ txs) h =
    elim (Str_discrete tx.from a) as (λ d. All P (ite d (tx ∷ partition a txs) (partition a txs))) [
      | yes e ↦ (h.0, partition-All P a txs h.1)
      | no ne ↦ partition-All P a txs h.1
    ]

module _ (c : Primitives) (sorter : SliceSort nonce_less) (s : State) (txs : List Transaction) where
  pub accepted_of-Ran :
      (a : Str) (acc : List Transaction)
      → accepted_of c sorter s txs a ≡ some acc
      → Ran c (get a s.nonce_table) (get a s.balances) (sorter.sort (partition a txs)) acc
  unfolding accepted_of
  accepted_of-Ran a acc e = run_worker-Ran c _ _ _ acc e

  -- What holds of a part of the batch holds of what its worker accepts.
  pub accepted_of-All :
      (P : Transaction → Type 0) (a : Str) (acc : List Transaction)
      → accepted_of c sorter s txs a ≡ some acc
      → All P (partition a txs)
      → All P acc
  accepted_of-All P a acc e h =
      let r = accepted_of-Ran a acc e in
      All-append_left P acc r.rest (subst (All P) r.splits (All-perm P (sorter.sort-perm _) h))

  pub gather-cons :
      (a : Str) (as' : List Str) (final : List Transaction)
      → gather c sorter s txs (a ∷ as') ≡ some final
      → (acc : List Transaction) × (rest : List Transaction) × (accepted_of c sorter s txs a
          ≡ some acc)
        × (gather c sorter s txs as' ≡ some rest)
        × (acc ++ rest ≡ final)
  unfolding gather
  gather-cons a as' final e = elim (Option-cases (accepted_of c sorter s txs a)) [
    | inl died ↦ absurd (ground arith)
    | inr (acc, ran) ↦
        let (rest, more, joined) =
          map-eq_some (◌++◌ acc) (gather c sorter s txs as') final (rw (ran, gather) at e) in
        (acc, rest, ran, more, joined)
  ]

  pub gather-IsBatch :
      (arrivals : List Str) (final : List Transaction)
      → gather c sorter s txs arrivals ≡ some final
      → IsBatch c s arrivals final
  unfolding gather
  gather-IsBatch [] final e = ground arith
  gather-IsBatch (a ∷ as') final e =
      let (acc, rest, ran, more, joined) = gather-cons a as' final e in
      let r = accepted_of-Ran a acc ran in
      (
        acc,
        rest,
        sym joined,
        accepted_of-All (IsFrom a) a acc ran (partition-IsFrom a txs),
        r.is_run,
        gather-IsBatch as' rest more,
      )

  pub gather-All :
      (P : Transaction → Type 0) (arrivals : List Str) (final : List Transaction)
      → gather c sorter s txs arrivals ≡ some final
      → All P txs
      → All P final
  unfolding gather
  gather-All P [] final e h = subst (All P) {x = []} (ground arith) tt
  gather-All P (a ∷ as') final e h =
      let (acc, rest, ran, more, joined) = gather-cons a as' final e in
      subst (All P) joined (
        All-append P acc rest (accepted_of-All P a acc ran (partition-All P a txs h))
          (gather-All P as' rest more h))
