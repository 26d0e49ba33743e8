-- ===== src/Ledger/Batch/Forged.antt =====
-- VerifyTransaction (ledger/transaction.go) never compares the key with the sender: what that lets
-- through the mempool and the batch.
use mathlib.Core.List.{Permᴰ}
use mathlib.Core.Option
use hyperlux_chain.Prelude.{◌≡◌, ◌≢◌, refl, sym, ap, ◌∙◌, true, some, List, [], ◌∷◌, if_pos, arith}
use hyperlux_chain.Prelude.Int.{ℤ, pos, ◌≤ℤ◌}
use hyperlux_chain.Prelude.Word64.{add64, sub64}
use hyperlux_chain.Prelude.Str.{Str, Str_discrete}
use hyperlux_chain.Prelude.Dict.{get, get-insert_self, get-insert_ne}
use hyperlux_chain.Primitives.{Primitives, SignatureLaws, SliceSort}
use hyperlux_chain.Ledger.Types.{Transaction, State}
use hyperlux_chain.Ledger.Transaction.{
  accepted, verify_transaction, validate_and_add_to_mempool, get_next_nonce,
}
use hyperlux_chain.Ledger.Transaction.Signing.{signed_by, verify-signed_by, signed_by-accepted}
use hyperlux_chain.Ledger.Mempool.{mempool_snapshot}
use hyperlux_chain.Ledger.Batch.{
  nonce_less, cost, partition, run_worker, accepted_of, gather, commit, commit_tx,
  process_tx_list_parallel, process_mempool_parallel, finish,
}

module _ {A : Type 0} where
  nil_perm : {xs ys : List A} → Permᴰ xs ys → xs ≡ [] → ys ≡ []
  nil_perm Permᴰ.nil h = refl
  nil_perm (Permᴰ.cons e p) h = cc
  nil_perm (Permᴰ.swap e e') h = cc
  nil_perm (Permᴰ.trans p q) h = nil_perm q (nil_perm p h)

  -- A list of one element has no other arrangement.
  singleton_perm : {xs ys : List A} (x : A) → Permᴰ xs ys → xs ≡ x ∷ [] → ys ≡ x ∷ []
  singleton_perm x Permᴰ.nil h = cc
  singleton_perm x (Permᴰ.cons e p) h = cc (e, h, nil_perm p (cc h))
  singleton_perm x (Permᴰ.swap e e') h = cc
  singleton_perm x (Permᴰ.trans p q) h = singleton_perm x q (singleton_perm x p h)

partition_one : (u : Transaction) → partition u.from (u ∷ []) ≡ u ∷ []
unfolding partition
partition_one u = if_pos (Str_discrete u.from u.from) refl (u ∷ []) []

module _ (c : Primitives) (sorter : SliceSort nonce_less) where
  run_worker_one :
      (n b : ℤ) (u : Transaction)
      → u.nonce ≡ add64 n (pos 1)
      → verify_transaction c u ≡ some true
      → cost u ≤ℤ b
      → run_worker c n b (u ∷ []) ≡ some (u ∷ [])
  unfolding run_worker
  run_worker_one n b u next valid covered = rw valid (ground arith)

  accepted_one :
      (u : Transaction) (s : State)
      → u.nonce ≡ get_next_nonce u.from s
      → verify_transaction c u ≡ some true
      → cost u ≤ℤ get u.from s.balances
      → accepted_of c sorter s (u ∷ []) u.from ≡ some (u ∷ [])
  unfolding accepted_of get_next_nonce
  accepted_one u s next valid covered =
      let sorted : sorter.sort (partition u.from (u ∷ [])) ≡ u ∷ [] =
        ap sorter.sort (partition_one u) ∙ singleton_perm u (sorter.sort-perm (u ∷ [])) refl in
      ap (run_worker c (get u.from s.nonce_table) (get u.from s.balances)) sorted
      ∙ run_worker_one (get u.from s.nonce_table) (get u.from s.balances) u next valid covered

  gather_one :
      (u : Transaction) (s : State)
      → accepted_of c sorter s (u ∷ []) u.from ≡ some (u ∷ [])
      → gather c sorter s (u ∷ []) (u.from ∷ []) ≡ some (u ∷ [])
  unfolding gather
  gather_one u s e = rw (e, gather) refl

  -- A batch of one transaction that may come next commits it.
  process_one :
      (u : Transaction) (s : State)
      → u.nonce ≡ get_next_nonce u.from s
      → verify_transaction c u ≡ some true
      → cost u ≤ℤ get u.from s.balances
      → process_tx_list_parallel c sorter (u.from ∷ []) (u ∷ []) s ≡ some (u ∷ [], commit_tx u s)
  unfolding process_tx_list_parallel commit
  process_one u s next valid covered =
      ap (Option.map (finish c sorter s)) (gather_one u s (accepted_one u s next valid covered))

module _ (c : Primitives) (laws : SignatureLaws c) (sorter : SliceSort nonce_less) where
  -- A transaction that names any account as its sender and carries any key, with a signature made
  -- with that key, is admitted to an empty mempool when it has the sender's next nonce and the
  -- sender's balance covers its cost, and the batch then takes the cost from the sender and gives
  -- the amount to the receiver (where these are not the same): the key need not be the sender's.
  pub any_key_spends :
      (key : Str) (tx : Transaction) (s : State)
      → s.mempool ≡ []
      → tx.nonce ≡ get_next_nonce tx.from s
      → add64 tx.amount tx.fee ≤ℤ get tx.from s.balances
      → tx.from ≢ tx.to
      → let (answer, waiting) = validate_and_add_to_mempool c (signed_by c key tx) s in
        (answer ≡ accepted)
        × (s' : State) × (process_mempool_parallel c sorter (tx.from ∷ []) waiting
            ≡ some (signed_by c key tx ∷ [], s'))
        × (get tx.from s'.balances ≡ sub64 (get tx.from s.balances) (add64 tx.amount tx.fee))
        × (get tx.to s'.balances ≡ add64 (get tx.to s.balances) tx.amount)
  unfolding process_mempool_parallel mempool_snapshot get_next_nonce commit_tx
  any_key_spends key tx s empty next covered others =
      let u = signed_by c key tx in
      let admitted = signed_by-accepted c laws key tx s next covered in
      let s1 = record s { mempool = u ∷ [] } in
      let one = process_one c sorter u s1 next (verify-signed_by c laws key tx) covered in
      rw (admitted, empty)
        (
          refl,
          commit_tx u s1,
          one,
          get-insert_ne tx.to tx.from _ _ (λ e. others (sym e))
              ∙ get-insert_self tx.from _ s.balances,
          get-insert_self tx.to _ _
              ∙ ap (λ z. add64 z tx.amount) (get-insert_ne tx.from tx.to _ s.balances others),
        )
