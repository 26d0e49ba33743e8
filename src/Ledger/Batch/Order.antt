-- ===== src/Ledger/Batch/Order.antt =====
-- The order in which the workers of ProcessTxListParallel (ledger/transaction.go) deliver.
use mathlib.Core.List.{Permᴰ, append_assoc}
use mathlib.Core.List.Permᴰ
use hyperlux_chain.Prelude.{
  suc, ◌≡◌, refl, sym, ap, ap₂, subst, ◌∙◌, ite, if_pos, if_neg, some, List, [], ◌∷◌, ◌++◌, arith,
}
use hyperlux_chain.Prelude.Int.{ℤ, pos, ◌+ℤ◌, ◌-ℤ◌, zero_right, int_laws}
use hyperlux_chain.Prelude.Word64.{
  add64, sub64, wrap64, wrap64_id, wrap64-InRange, wrap64-wrap64_left, InRange,
}
use hyperlux_chain.Prelude.Str.{Str, Str_discrete}
use hyperlux_chain.Prelude.Dict.{Dict, get, insert, get-insert_self, get-insert_ne}
use hyperlux_chain.Primitives.{Primitives, SliceSort}
use hyperlux_chain.Ledger.Types.{Transaction, State}
use hyperlux_chain.Ledger.Batch.{
  nonce_less, cost, commit_tx, commit, accepted_of, gather, process_tx_list_parallel,
  IsArrivalOrder,
}
use hyperlux_chain.Ledger.Batch.Gather.{gather-cons}
use hyperlux_chain.Ledger.Batch.Arrival.{process-gather, finish-commit}
use hyperlux_chain.Ledger.Batch.Nonces.{count_from, process-nonces}

-- What a transaction adds to an account.
pub delta : Str → Transaction → ℤ
delta a tx =
    ite (Str_discrete tx.from a) (pos 0 -ℤ cost tx) (pos 0)
    +ℤ ite (Str_discrete tx.to a) tx.amount (pos 0)

pub effect : Str → List Transaction → ℤ
effect a [] = pos 0
effect a (tx ∷ txs) = delta a tx +ℤ effect a txs

-- A write `m[k] += x` as every account sees it.
get-add :
    (a k : Str) (x : ℤ) (m : Dict ℤ)
    → InRange (get a m)
    → get a (insert k (wrap64 (get k m +ℤ x)) m)
      ≡ wrap64 (get a m +ℤ ite (Str_discrete k a) x (pos 0))
get-add a k x m r = elim (Str_discrete k a) [
  | yes e ↦ rw (if_pos _ e) (
      subst (λ b. get b (insert k (wrap64 (get k m +ℤ x)) m) ≡ wrap64 (get b m +ℤ x)) e
        (get-insert_self k (wrap64 (get k m +ℤ x)) m))
  | no ne ↦ rw (if_neg _ ne) (
      get-insert_ne k a (wrap64 (get k m +ℤ x)) m ne
      ∙ sym (ap wrap64 (zero_right (get a m)) ∙ wrap64_id (get a m) r))
]

commit_tx-balance :
    (a : Str) (tx : Transaction) (s : State)
    → InRange (get a s.balances)
    → get a (commit_tx tx s).balances ≡ wrap64 (get a s.balances +ℤ delta a tx)
unfolding commit_tx delta add64 sub64
commit_tx-balance a tx s r =
    get-add a tx.to tx.amount debited (rw debit (wrap64-InRange _))
    ∙ ap (λ g. wrap64 (g +ℤ ite (Str_discrete tx.to a) tx.amount (pos 0))) debit
    ∙ wrap64-wrap64_left _ _
    ∙ ap wrap64 (omega int_laws)
  where
    debited : Dict ℤ
    debited = insert tx.from (wrap64 (get tx.from s.balances -ℤ cost tx)) s.balances

    debit :
        get a debited
        ≡ wrap64 (get a s.balances +ℤ ite (Str_discrete tx.from a) (pos 0 -ℤ cost tx) (pos 0))
    debit =
        ap (λ v. get a (insert tx.from (wrap64 v) s.balances)) (omega int_laws)
        ∙ get-add a tx.from (pos 0 -ℤ cost tx) s.balances r

-- The balance of an account after a list of commits: what it was and what each of them adds,
-- reduced to an `int` once.
pub commit-balance :
    (a : Str) (txs : List Transaction) (s : State)
    → InRange (get a s.balances)
    → get a (commit txs s).balances ≡ wrap64 (get a s.balances +ℤ effect a txs)
unfolding commit effect
commit-balance a [] s r = sym (ap wrap64 (zero_right _) ∙ wrap64_id _ r)
commit-balance a (tx ∷ txs) s r =
    commit-balance a txs (commit_tx tx s) (rw (commit_tx-balance a tx s r) (wrap64-InRange _))
    ∙ ap (λ g. wrap64 (g +ℤ effect a txs)) (commit_tx-balance a tx s r)
    ∙ wrap64-wrap64_left _ _
    ∙ ap wrap64 (omega int_laws)

effect-perm : (a : Str) {xs ys : List Transaction} → Permᴰ xs ys → effect a xs ≡ effect a ys
unfolding effect
effect-perm a Permᴰ.nil = refl
effect-perm a (Permᴰ.cons e p) = ap₂ (λ x y. delta a x +ℤ y) e (effect-perm a p)
effect-perm a (Permᴰ.swap {a = x} {b = y} {l = l} e e') =
    let swapped : effect a (x ∷ y ∷ l) ≡ effect a (y ∷ x ∷ l) = omega int_laws in
    swapped ∙ ap₂ (λ u v. effect a (v ∷ u ∷ l)) e e'
effect-perm a (Permᴰ.trans p q) = effect-perm a p ∙ effect-perm a q

count_from-perm :
    (a : Str) {xs ys : List Transaction} → Permᴰ xs ys → count_from a xs ≡ count_from a ys
unfolding count_from
count_from-perm a Permᴰ.nil = refl
count_from-perm a (Permᴰ.cons e p) =
    ap₂ (λ x n. ite (Str_discrete x.from a) (suc n) n) e (count_from-perm a p)
count_from-perm a (Permᴰ.swap {a = x} {b = y} {l = l} e e') =
    let swapped : count_from a (x ∷ y ∷ l) ≡ count_from a (y ∷ x ∷ l) = ground arith in
    swapped ∙ ap₂ (λ u v. count_from a (v ∷ u ∷ l)) e e'
count_from-perm a (Permᴰ.trans p q) = count_from-perm a p ∙ count_from-perm a q

swap_blocks : (xs ys zs : List Transaction) → Permᴰ (xs ++ (ys ++ zs)) (ys ++ (xs ++ zs))
swap_blocks xs ys zs =
    subst (λ l. Permᴰ l (ys ++ (xs ++ zs))) (append_assoc xs ys zs)
      (subst (Permᴰ ((xs ++ ys) ++ zs)) (append_assoc ys xs zs)
        (Permᴰ.append_right zs (Permᴰ.append_comm xs ys)))

module _ (c : Primitives) (sorter : SliceSort nonce_less) (s : State) (txs : List Transaction) where
  gather-join :
      (a : Str) (as' : List Str) (acc rest : List Transaction)
      → accepted_of c sorter s txs a ≡ some acc
      → gather c sorter s txs as' ≡ some rest
      → gather c sorter s txs (a ∷ as') ≡ some (acc ++ rest)
  unfolding gather
  gather-join a as' acc rest ran more = ground arith

  -- Another order of arrival gives the same transactions in another order, and no panic either.
  gather-perm :
      {o o' : List Str}
      → Permᴰ o o'
      → (f : List Transaction) → gather c sorter s txs o ≡ some f
      → (f' : List Transaction) × (gather c sorter s txs o' ≡ some f') × Permᴰ f f'
  gather-perm Permᴰ.nil f e = (f, e, Permᴰ.refl f)
  gather-perm (Permᴰ.cons {a = a} {b = b} {l₁ = l} {l₂ = l'} same p) f e =
      let (acc, rest, ran, more, joined) = gather-cons c sorter s txs a l f e in
      let (rest', more', moved) = gather-perm p rest more in
      (
        acc ++ rest',
        gather-join b l' acc rest' (subst (λ q. accepted_of c sorter s txs q ≡ some acc) same ran)
            more',
        subst (λ g. Permᴰ g (acc ++ rest')) joined (Permᴰ.append_left acc moved),
      )
  gather-perm (Permᴰ.swap {a = a} {b = b} {a' = a'} {b' = b'} {l = l} same same') f e =
      let (acc, rest, ran, more, joined) = gather-cons c sorter s txs a (b ∷ l) f e in
      let (acc', rest', ran', more', joined') = gather-cons c sorter s txs b l rest more in
      (
        acc' ++ (acc ++ rest'),
        gather-join a' (b' ∷ l) acc' (acc ++ rest')
            (subst (λ q. accepted_of c sorter s txs q ≡ some acc') same' ran')
            (gather-join b' l acc rest'
              (subst (λ q. accepted_of c sorter s txs q ≡ some acc) same ran) more'),
        subst (λ g. Permᴰ g (acc' ++ (acc ++ rest'))) (ap (◌++◌ acc) joined' ∙ joined)
            (swap_blocks acc acc' rest'),
      )
  gather-perm (Permᴰ.trans p q) f e =
      let (f', e', moved) = gather-perm p f e in
      let (f'', e'', moved') = gather-perm q f' e' in (f'', e'', Permᴰ.trans moved moved')

  process-join :
      (t : Transaction) (o : List Str) (f : List Transaction)
      → gather c sorter s (t ∷ txs) o ≡ some f
      → process_tx_list_parallel c sorter o (t ∷ txs) s ≡ some (f, commit f s)
  unfolding process_tx_list_parallel
  process-join t o f e = rw e (ap some (finish-commit c sorter s f))

-- Two states in which every account has the same balance and the same nonce.
abbrev pub AgreeOnAccounts : State → State → Type 0
AgreeOnAccounts s t =
    (a : Str) → (get a s.balances ≡ get a t.balances) × (get a s.nonce_table ≡ get a t.nonce_table)

-- The balances and nonces are words of 64 bits.
abbrev pub HoldsWords : State → Type 0
HoldsWords s = (a : Str) → InRange (get a s.balances) × InRange (get a s.nonce_table)

module _ (c : Primitives) (sorter : SliceSort nonce_less) where
  -- Whatever two orders the workers deliver in: if a batch ends without a panic under the one it
  -- does so under the other, it commits the same transactions up to their order, and every account
  -- ends with the same balance and the same nonce.
  pub process-order :
      (o o' : List Str) (txs : List Transaction) (s : State) (final : List Transaction) (s' : State)
      → IsArrivalOrder txs o
      → IsArrivalOrder txs o'
      → HoldsWords s
      → process_tx_list_parallel c sorter o txs s ≡ some (final, s')
      → (final' : List Transaction) × (s'' : State) × (process_tx_list_parallel c sorter o' txs s
          ≡ some (final', s''))
        × Permᴰ final final'
        × AgreeOnAccounts s' s''
  unfolding process_tx_list_parallel
  process-order o o' [] s final s' p p' r e = (final, s', e, Permᴰ.refl final, λ a. (refl, refl))
  process-order o o' (t ∷ txs) s final s' p p' r e =
      let (ran, committed) = process-gather c sorter t txs o s final s' e in
      let (final', ran', moved) =
        gather-perm c sorter s (t ∷ txs) (Permᴰ.trans (Permᴰ.symm p) p') final ran in
      let e' = process-join c sorter s txs t o' final' ran' in
      (
        final',
        commit final' s,
        e',
        moved,
        λ a. (
          ap (λ (u : State). get a u.balances) committed
              ∙ commit-balance a final s (r a).0
              ∙ ap (λ x. wrap64 (get a s.balances +ℤ x)) (effect-perm a moved)
              ∙ sym (commit-balance a final' s (r a).0),
          process-nonces c sorter o (t ∷ txs) s final s' a p e (r a).1
              ∙ ap (λ n. add64 (get a s.nonce_table) (pos n)) (count_from-perm a moved)
              ∙ sym
                  (process-nonces c sorter o' (t ∷ txs) s final' (commit final' s) a p' e' (r a).1),
        ),
      )
