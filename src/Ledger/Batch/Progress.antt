-- ===== src/Ledger/Batch/Progress.antt =====
-- Which transactions a batch of ProcessTxListParallel (ledger/transaction.go) can commit at all.
use mathlib.Core.List.{Permᴰ, Memᴰ}
use mathlib.Core.Option.{some-injective}
use hyperlux_chain.Prelude.{
  ◌^◌, ◌≤◌, ◌≡◌, ◌≢◌, refl, sym, ap, subst, ◌∙◌, ◌⊎◌, inl, inr, false, some, List, [], ◌∷◌, ◌++◌,
  length, ite, All, All-map, IsNodup, arith,
}
use hyperlux_chain.Prelude.Int.{ℤ, pos, ◌+ℤ◌, ◌≤ℤ◌, ◌<ℤ◌, eq_le, int_laws}
use hyperlux_chain.Prelude.Word64.{add64, add64_exact, wrap64, InRange}
use hyperlux_chain.Prelude.Str.{Str, Str_discrete}
use hyperlux_chain.Prelude.Dict.{get}
use hyperlux_chain.Primitives.{Primitives, SliceSort, IsSortedBy}
use hyperlux_chain.Ledger.Types.{Transaction, State}
use hyperlux_chain.Ledger.Batch.{
  nonce_less, partition, accepted_of, gather, process_tx_list_parallel, IsArrivalOrder,
}
use hyperlux_chain.Ledger.Batch.Gather.{
  IsFrom, gather-cons, gather-IsBatch, accepted_of-Ran, accepted_of-All, partition-IsFrom,
  partition-All,
}
use hyperlux_chain.Ledger.Batch.Arrival.{process-gather, arrivals-IsNodup}
use hyperlux_chain.Ledger.Batch.Nonces.{
  count_from, count_from-append, absent-nonce, own-nonce, batch-IsAbsent,
}

le_of_not_less : (t u : Transaction) → nonce_less t u ≡ false → u.nonce ≤ℤ t.nonce
le_of_not_less t u h = ground arith

-- The first of a sorted list has the smallest nonce.
first-le :
    (t x : Transaction) (xs : List Transaction)
    → IsSortedBy nonce_less (x ∷ xs)
    → Memᴰ t (x ∷ xs)
    → x.nonce ≤ℤ t.nonce
first-le t x xs h (Memᴰ.head e) =
    subst (λ (u : Transaction). x.nonce ≤ℤ u.nonce) (sym e) (omega arith)
first-le t x [] h (Memᴰ.tail m) = elim m [ ]
first-le t x (y ∷ ys) h (Memᴰ.tail m) = omega (arith, le_of_not_less y x h.0, first-le t y ys h.1 m)

mem-perm : {t : Transaction} {xs ys : List Transaction} → Permᴰ xs ys → Memᴰ t xs → Memᴰ t ys
mem-perm Permᴰ.nil m = elim m [ ]
mem-perm (Permᴰ.cons e p) (Memᴰ.head q) = Memᴰ.head (q ∙ e)
mem-perm (Permᴰ.cons e p) (Memᴰ.tail m) = Memᴰ.tail (mem-perm p m)
mem-perm (Permᴰ.swap e e') (Memᴰ.head q) = Memᴰ.tail (Memᴰ.head (q ∙ e))
mem-perm (Permᴰ.swap e e') (Memᴰ.tail (Memᴰ.head q)) = Memᴰ.head (q ∙ e')
mem-perm (Permᴰ.swap e e') (Memᴰ.tail (Memᴰ.tail m)) = Memᴰ.tail (Memᴰ.tail m)
mem-perm (Permᴰ.trans p q) m = mem-perm q (mem-perm p m)

mem-partition :
    (t : Transaction) (txs : List Transaction) → Memᴰ t txs → Memᴰ t (partition t.from txs)
unfolding partition
mem-partition t [] m = elim m [ ]
mem-partition t (x ∷ txs) (Memᴰ.head e) =
    elim (Str_discrete x.from t.from)
      as (λ d. Memᴰ t (ite d (x ∷ partition t.from txs) (partition t.from txs))) [
        | yes q ↦ Memᴰ.head e
        | no ne ↦ absurd (ne (ap (λ (u : Transaction). u.from) (sym e)))
      ]
mem-partition t (x ∷ txs) (Memᴰ.tail m) =
    elim (Str_discrete x.from t.from)
      as (λ d. Memᴰ t (ite d (x ∷ partition t.from txs) (partition t.from txs))) [
        | yes q ↦ Memᴰ.tail (mem-partition t txs m)
        | no ne ↦ mem-partition t txs m
      ]

-- No word is its own successor.
add64-one-ne : (n : ℤ) → add64 n (pos 1) ≢ n
unfolding add64 wrap64 ◌+ℤ◌
add64-one-ne n e = ground arith

module _ (c : Primitives) (sorter : SliceSort nonce_less) (s : State) (txs : List Transaction) where
  -- An account's transactions in a batch are those that its worker accepted.
  gather-sent :
      (a : Str) (parts : List Str) (final : List Transaction)
      → IsNodup parts
      → gather c sorter s txs parts ≡ some final
      → (count_from a final ≡ 0)
        ⊎ ((acc : List Transaction) × (accepted_of c sorter s txs a ≡ some acc)
            × (count_from a final ≡ length acc))
  unfolding gather count_from
  gather-sent a [] final d e = inl (ap (count_from a) (sym (some-injective _ _ e)))
  gather-sent a (p ∷ parts) final d e =
      let (acc, rest, ran, more, joined) = gather-cons c sorter s txs p parts final e in
      let own = accepted_of-All c sorter s txs (IsFrom p) p acc ran (partition-IsFrom p txs) in
      let counted = ap (count_from a) (sym joined) ∙ count_from-append a acc rest in
      elim (Str_discrete p a) [
        | yes same ↦
            let mine = (own-nonce a acc (pos 0) (subst (λ q. All (IsFrom q) acc) same own)).1 in
            let others =
              (absent-nonce a rest (pos 0) (
                batch-IsAbsent c s a parts rest (subst (λ q. All (λ y. y ≢ q) parts) same d.0)
                  (gather-IsBatch c sorter s txs parts rest more))).1 in
            inr (
              acc,
              subst (λ q. accepted_of c sorter s txs q ≡ some acc) same ran,
              omega (arith, counted, mine, others),
            )
        | no other ↦
            let mine =
              (absent-nonce a acc (pos 0) (All-map (λ tx q r. other (sym q ∙ r)) acc own)).1 in
            elim (gather-sent a parts rest d.1 more) [
              | inl none_there ↦ inl (omega (arith, counted, mine, none_there))
              | inr (acc', ran', there) ↦ inr (acc', ran', omega (arith, counted, mine, there))
            ]
      ]

  stale-stops :
      (t : Transaction) (acc : List Transaction)
      → Memᴰ t txs
      → t.nonce ≤ℤ get t.from s.nonce_table
      → get t.from s.nonce_table +ℤ pos 1 <ℤ pos (2 ^ 63)
      → InRange (get t.from s.nonce_table)
      → accepted_of c sorter s txs t.from ≡ some acc
      → length acc ≡ 0
  stale-stops t [] m old room r e = refl
  stale-stops t (x ∷ acc) m old room r e =
      let ran = accepted_of-Ran c sorter s txs t.from (x ∷ acc) e in
      let part = sorter.sort (partition t.from txs) in
      let sorted =
        subst (IsSortedBy nonce_less) ran.splits (sorter.sort-IsSorted (partition t.from txs)) in
      let there =
        subst (Memᴰ t) ran.splits
          (mem-perm (sorter.sort-perm (partition t.from txs)) (mem-partition t txs m)) in
      absurd (
        omega (
          int_laws,
          first-le t x (acc ++ ran.rest) sorted there,
          eq_le ran.is_run.0.0,
          eq_le (add64_exact (get t.from s.nonce_table) (pos 1) (omega int_laws)),
          old,
        ))

  same_nonce-stops :
      (a : Str) (n : ℤ) (acc : List Transaction)
      → All (λ t. t.from ≡ a → t.nonce ≡ n) txs
      → accepted_of c sorter s txs a ≡ some acc
      → length acc ≤ 1
  same_nonce-stops a n [] h e = omega arith
  same_nonce-stops a n (x ∷ []) h e = omega arith
  same_nonce-stops a n (x ∷ y ∷ acc) h e =
      let ran = accepted_of-Ran c sorter s txs a (x ∷ y ∷ acc) e in
      let own =
        accepted_of-All c sorter s txs (IsFrom a) a (x ∷ y ∷ acc) e (partition-IsFrom a txs) in
      let same =
        accepted_of-All c sorter s txs (λ t. t.from ≡ a → t.nonce ≡ n) a (x ∷ y ∷ acc) e
          (partition-All (λ t. t.from ≡ a → t.nonce ≡ n) a txs h) in
      absurd (
        add64-one-ne n (
          sym
            (sym (same.1.0 own.1.0) ∙ ran.is_run.1.0.0 ∙ ap (λ k. add64 k (pos 1)) (same.0 own.0))))

module _ (c : Primitives) (sorter : SliceSort nonce_less) where
  process-sent :
      (arrivals : List Str) (txs : List Transaction) (s : State) (final : List Transaction)
      (s' : State) (a : Str)
      → IsArrivalOrder txs arrivals
      → process_tx_list_parallel c sorter arrivals txs s ≡ some (final, s')
      → (count_from a final ≡ 0)
        ⊎ ((acc : List Transaction) × (accepted_of c sorter s txs a ≡ some acc)
            × (count_from a final ≡ length acc))
  unfolding process_tx_list_parallel count_from
  process-sent arrivals [] s final s' a p e =
      let empty : final ≡ [] = ground arith in inl (ap (count_from a) empty)
  process-sent arrivals (t ∷ txs) s final s' a p e =
      gather-sent c sorter s (t ∷ txs) a arrivals final (arrivals-IsNodup (t ∷ txs) arrivals p)
        (process-gather c sorter t txs arrivals s final s' e).0

  -- One transaction of a sender whose nonce has been used already blocks the sender: a batch that
  -- holds it commits none of the sender's transactions, whatever else the batch holds. (The last
  -- nonce must not be the largest `int`.)
  pub process-stale :
      (arrivals : List Str) (txs : List Transaction) (s : State) (final : List Transaction)
      (s' : State) (t : Transaction)
      → IsArrivalOrder txs arrivals
      → process_tx_list_parallel c sorter arrivals txs s ≡ some (final, s')
      → Memᴰ t txs
      → t.nonce ≤ℤ get t.from s.nonce_table
      → InRange (get t.from s.nonce_table)
      → get t.from s.nonce_table +ℤ pos 1 <ℤ pos (2 ^ 63)
      → count_from t.from final ≡ 0
  process-stale arrivals txs s final s' t p e m old r room =
      elim (process-sent arrivals txs s final s' t.from p e) [
        | inl none_sent ↦ none_sent
        | inr (acc, ran, counted) ↦ counted ∙ stale-stops c sorter s txs t acc m old room r ran
      ]

  -- Where all transactions of a sender in the batch have one nonce, at most one is committed.
  pub process-one_nonce :
      (arrivals : List Str) (txs : List Transaction) (s : State) (final : List Transaction)
      (s' : State) (a : Str) (n : ℤ)
      → IsArrivalOrder txs arrivals
      → process_tx_list_parallel c sorter arrivals txs s ≡ some (final, s')
      → All (λ t. t.from ≡ a → t.nonce ≡ n) txs
      → count_from a final ≤ 1
  process-one_nonce arrivals txs s final s' a n p e h =
      elim (process-sent arrivals txs s final s' a p e) [
        | inl none_sent ↦ omega (arith, none_sent)
        | inr (acc, ran, counted) ↦
            omega (arith, counted, same_nonce-stops c sorter s txs a n acc h ran)
      ]
