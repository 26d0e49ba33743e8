-- ===== src/Ledger/Batch/Refinement.antt =====
-- ProcessTxListParallel (ledger/transaction.go) against a ledger that executes one transaction at a
-- time: the specification forgets the maps, the parts, the workers and the order of arrival.
use hyperlux_chain.Prelude.{
  ◌≡◌, ◌≢◌, refl, sym, ap, subst, ◌∙◌, true, some, List, [], ◌∷◌, ◌++◌, All, All-append_left,
  All-append_right, IsNodup, ite,
}
use hyperlux_chain.Prelude.Int.{ℤ, pos, ◌+ℤ◌, ◌-ℤ◌, ◌≤ℤ◌, eq_le, int_laws}
use hyperlux_chain.Prelude.Word64.{add64, sub64}
use hyperlux_chain.Prelude.Str.{Str, Str_discrete}
use hyperlux_chain.Prelude.Dict.{
  Dict, get, insert, get-insert_self, get-insert_ne, IsSolvent, get_nonneg,
}
use hyperlux_chain.Primitives.{Primitives, SliceSort}
use hyperlux_chain.Ledger.Types.{Transaction, State}
use hyperlux_chain.Ledger.Transaction.{verify_transaction}
use hyperlux_chain.Ledger.Batch.{
  nonce_less, cost, commit_tx, commit, process_tx_list_parallel, IsArrivalOrder,
}
use hyperlux_chain.Ledger.Batch.Worker.{IsRun}
use hyperlux_chain.Ledger.Batch.Gather.{IsFrom, IsBatch}
use hyperlux_chain.Ledger.Batch.Arrival.{process-Processed, process-All}
use hyperlux_chain.Ledger.Batch.Conservation.{
  IsPlain, IsSound, Ready, Ready-covers, Ready-commit_tx, run-Kept, StillHold, StillHold-Kept,
  StillHold-refl, debit, credit, debit_exact, credit_exact, debit-Paid, commit-append,
}

-- What the specification keeps of an account.
pub record Accounts : Type 0 where
  pub balance : Str → ℤ
  pub nonce : Str → ℤ

abbrev pub view : State → Accounts
view s = record { balance = λ a. get a s.balances; nonce = λ a. get a s.nonce_table }

abbrev pub only_at : Str → Str → ℤ → ℤ
only_at k a x = ite (Str_discrete k a) x (pos 0)

-- One transaction is executed: it is signed, has the sender's next nonce, and the sender can pay
-- it. The amount and the fee leave the sender, the amount reaches the receiver, the nonce is used,
-- and nothing else changes.
pub record Executes (c : Primitives) (a : Accounts) (tx : Transaction) (b : Accounts) : Type 0 where
  pub signed : verify_transaction c tx ≡ some true
  pub next : tx.nonce ≡ add64 (a.nonce tx.from) (pos 1)
  pub funded : tx.amount +ℤ tx.fee ≤ℤ a.balance tx.from
  pub moves :
      (k : Str)
      → b.balance k
        ≡ a.balance k -ℤ only_at tx.from k (tx.amount +ℤ tx.fee) +ℤ only_at tx.to k tx.amount
  pub uses : (k : Str) → b.nonce k ≡ ite (Str_discrete tx.from k) tx.nonce (a.nonce k)

-- Transactions are executed one after the other.
pub data ExecutesAll (c : Primitives) : Accounts → List Transaction → Accounts → Type 0 where
  done : {a : Accounts} → ExecutesAll c a [] a
  more :
      {a a' b : Accounts} {tx : Transaction} {txs : List Transaction}
      → Executes c a tx a'
      → ExecutesAll c a' txs b
      → ExecutesAll c a (tx ∷ txs) b

ExecutesAll-append :
    {c : Primitives} {a b d : Accounts} {xs ys : List Transaction}
    → ExecutesAll c a xs b
    → ExecutesAll c b ys d
    → ExecutesAll c a (xs ++ ys) d
ExecutesAll-append done r = r
ExecutesAll-append (more e l) r = more e (ExecutesAll-append l r)

get-insert :
    (k a : Str) (v : ℤ) (m : Dict ℤ) → get a (insert k v m) ≡ ite (Str_discrete k a) v (get a m)
get-insert k a v m = elim (Str_discrete k a) as (λ d. get a (insert k v m) ≡ ite d v (get a m)) [
  | yes e ↦ subst (λ b. get b (insert k v m) ≡ v) e (get-insert_self k v m)
  | no ne ↦ get-insert_ne k a v m ne
]

pub add_at :
    (k a : Str) (x : ℤ) (m : Dict ℤ) → get a (insert k (get k m +ℤ x) m) ≡ get a m +ℤ only_at k a x
add_at k a x m =
    get-insert k a (get k m +ℤ x) m
    ∙ elim (Str_discrete k a)
        as (λ d. ite d (get k m +ℤ x) (get a m) ≡ get a m +ℤ ite d x (pos 0)) [
          | yes e ↦ ap (λ b. get b m +ℤ x) e
          | no ne ↦ omega int_laws
        ]

take_at :
    (k a : Str) (x : ℤ) (m : Dict ℤ) → get a (insert k (get k m -ℤ x) m) ≡ get a m -ℤ only_at k a x
take_at k a x m =
    get-insert k a (get k m -ℤ x) m
    ∙ elim (Str_discrete k a)
        as (λ d. ite d (get k m -ℤ x) (get a m) ≡ get a m -ℤ ite d x (pos 0)) [
          | yes e ↦ ap (λ b. get b m -ℤ x) e
          | no ne ↦ omega int_laws
        ]

transfer_moves :
    (tx : Transaction) (m : Dict ℤ) (k : Str)
    → IsPlain tx
    → IsSound m
    → tx.amount +ℤ tx.fee ≤ℤ get tx.from m
    → get k (credit tx (debit tx m))
      ≡ get k m -ℤ only_at tx.from k (tx.amount +ℤ tx.fee) +ℤ only_at tx.to k tx.amount
transfer_moves tx m k plain h covered =
    let d = debit-Paid tx m plain h covered in
    ap (get k) (credit_exact tx (debit tx m) plain d.sound (omega (int_laws, eq_le d.conserved)))
    ∙ add_at tx.to k tx.amount (debit tx m)
    ∙ ap (λ z. z +ℤ only_at tx.to k tx.amount)
        (ap (get k) (debit_exact tx m plain h covered) ∙ take_at tx.from k (tx.amount +ℤ tx.fee) m)

commit_tx-Executes :
    (c : Primitives) (tx : Transaction) (s : State)
    → IsPlain tx
    → IsSound s.balances
    → tx.amount +ℤ tx.fee ≤ℤ get tx.from s.balances
    → verify_transaction c tx ≡ some true
    → tx.nonce ≡ add64 (get tx.from s.nonce_table) (pos 1)
    → Executes c (view s) tx (view (commit_tx tx s))
unfolding commit_tx credit debit
commit_tx-Executes c tx s plain h covered signed next = record {
  signed = signed;
  next = next;
  funded = covered;
  moves = λ k. transfer_moves tx s.balances k plain h covered;
  uses = λ k. get-insert tx.from k tx.nonce s.nonce_table;
}

commit_tx-nonce :
    (tx : Transaction) (s : State) (p : Str)
    → tx.from ≡ p
    → get p (commit_tx tx s).nonce_table ≡ tx.nonce
unfolding commit_tx
commit_tx-nonce tx s p own =
    subst (λ q. get q (insert tx.from tx.nonce s.nonce_table) ≡ tx.nonce) own
      (get-insert_self tx.from tx.nonce s.nonce_table)

run-ExecutesAll :
    (c : Primitives) (p : Str) (n b : ℤ) (acc : List Transaction) (s : State)
    → All IsPlain acc
    → All (IsFrom p) acc
    → IsRun c n b acc
    → Ready p b s
    → get p s.nonce_table ≡ n
    → ExecutesAll c (view s) acc (view (commit acc s))
unfolding commit
run-ExecutesAll c p n b [] s plain own run r e = done
run-ExecutesAll c p n b (tx ∷ acc) s plain own (next, run) r e =
    more
      (commit_tx-Executes c tx s plain.0 r.sound (Ready-covers p b tx s plain.0 own.0 next.2 r)
        next.1
        (next.0 ∙ ap (λ k. add64 k (pos 1)) (sym e ∙ ap (λ q. get q s.nonce_table) (sym own.0))))
      (run-ExecutesAll c p tx.nonce (sub64 b (cost tx)) acc (commit_tx tx s) plain.1 own.1 run
        (Ready-commit_tx p b tx s plain.0 own.0 next.2 r) (commit_tx-nonce tx s p own.0))

-- The nonces of the parts that are still to come are those of the snapshot.
abbrev StillUnused : Dict ℤ → Dict ℤ → List Str → Type 0
StillUnused m m' = All (λ q. get q m' ≡ get q m)

commit-nonce_other :
    (q p : Str) (acc : List Transaction) (s : State)
    → q ≢ p
    → All (IsFrom p) acc
    → get q (commit acc s).nonce_table ≡ get q s.nonce_table
unfolding commit commit_tx
commit-nonce_other q p [] s ne own = refl
commit-nonce_other q p (tx ∷ acc) s ne own =
    commit-nonce_other q p acc (commit_tx tx s) ne own.1
    ∙ get-insert_ne tx.from q tx.nonce s.nonce_table (λ e. ne (sym e ∙ own.0))

StillUnused-commit :
    (p : Str) (m : Dict ℤ) (acc : List Transaction) (t : State) (parts : List Str)
    → All (λ q. q ≢ p) parts
    → All (IsFrom p) acc
    → StillUnused m t.nonce_table parts
    → StillUnused m (commit acc t).nonce_table parts
StillUnused-commit p m acc t [] ne own h = tt
StillUnused-commit p m acc t (q ∷ parts) ne own h =
    (commit-nonce_other q p acc t ne.0 own ∙ h.0, StillUnused-commit p m acc t parts ne.1 own h.1)

batch-ExecutesAll :
    (c : Primitives) (s : State) (parts : List Str) (final : List Transaction) (t : State)
    → IsNodup parts
    → IsBatch c s parts final
    → All IsPlain final
    → IsSolvent s.balances
    → IsSound t.balances
    → StillHold s.balances t.balances parts
    → StillUnused s.nonce_table t.nonce_table parts
    → ExecutesAll c (view t) final (view (commit final t))
unfolding commit
batch-ExecutesAll c s [] final t d b plain snap h hold unused =
    subst (λ f. ExecutesAll c (view t) f (view (commit f t))) (sym b) done
batch-ExecutesAll c s (p ∷ parts) final t d (acc, rest, e, own, run, b) plain snap h hold unused =
    let split = subst (All IsPlain) e plain in
    let first = All-append_left IsPlain acc rest split in
    let r : Ready p (get p s.balances) t = record {
      sound = h;
      reckoned_nonneg = get_nonneg p s.balances snap;
      covers = hold.0;
    } in
    let k = run-Kept c p _ _ acc t first own run r in
    let ih =
      batch-ExecutesAll c s parts rest (commit acc t) d.1 b
        (All-append_right IsPlain acc rest split) snap k.sound
        (StillHold-Kept p s.balances t.balances _ acc parts d.0 hold.1 k)
        (StillUnused-commit p s.nonce_table acc t parts d.0 own unused.1) in
    subst (λ f. ExecutesAll c (view t) f (view (commit f t))) (sym e)
      (ExecutesAll-append (run-ExecutesAll c p _ _ acc t first own run r unused.0) (
        subst (λ u. ExecutesAll c (view (commit acc t)) rest (view u))
          (sym (commit-append acc rest t)) ih))

StillUnused-refl : (m : Dict ℤ) (parts : List Str) → StillUnused m m parts
StillUnused-refl m [] = tt
StillUnused-refl m (p ∷ parts) = (refl, StillUnused-refl m parts)

module _ (c : Primitives) (sorter : SliceSort nonce_less) where
  -- What a batch returns can be executed one transaction at a time, in the order in which it was
  -- returned, from the accounts before the batch to those after it: each transaction is signed, has
  -- its sender's next nonce and is paid for at its turn. The conditions are that no balance is
  -- negative, the balances together fit an `int`, and no amount or fee is negative and no cost
  -- overflows.
  pub process-ExecutesAll :
      (arrivals : List Str) (txs : List Transaction) (s : State) (final : List Transaction)
      (s' : State)
      → IsArrivalOrder txs arrivals
      → process_tx_list_parallel c sorter arrivals txs s ≡ some (final, s')
      → All IsPlain txs
      → IsSound s.balances
      → ExecutesAll c (view s) final (view s')
  process-ExecutesAll arrivals txs s final s' p e plain h =
      let ran = process-Processed c sorter arrivals txs s final s' p e in
      subst (λ (t : State). ExecutesAll c (view s) final (view t)) (sym ran.committed)
        (batch-ExecutesAll c s ran.parts final s ran.distinct ran.batch
          (process-All c sorter IsPlain arrivals txs s final s' e plain) h.0 h
          (StillHold-refl s.balances ran.parts) (StillUnused-refl s.nonce_table ran.parts))
