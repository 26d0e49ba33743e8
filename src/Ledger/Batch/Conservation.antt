-- ===== src/Ledger/Batch/Conservation.antt =====
-- What ProcessTxListParallel (ledger/transaction.go) does to the balances, for transactions whose
-- amounts and fees are not negative and do not overflow.
use hyperlux_chain.Prelude.{
  ◌^◌, ◌≡◌, ◌≢◌, refl, sym, ap, subst, ◌∙◌, some, List, [], ◌∷◌, ◌++◌, All, All-append_left,
  All-append_right, IsNodup, arith,
}
use hyperlux_chain.Prelude.Int.{ℤ, pos, ◌+ℤ◌, ◌-ℤ◌, ◌≤ℤ◌, ◌<ℤ◌, eq_le, int_laws}
use hyperlux_chain.Prelude.Word64.{add64, sub64, add64_exact, sub64_exact}
use hyperlux_chain.Prelude.Str.{Str, Str_discrete}
use hyperlux_chain.Prelude.Dict.{
  Dict, get, insert, get-insert_self, get-insert_ne, total, total-insert, IsSolvent,
  insert-IsSolvent, get_nonneg, get-le-total,
}
use hyperlux_chain.Primitives.{Primitives, SliceSort}
use hyperlux_chain.Ledger.Types.{Transaction, State}
use hyperlux_chain.Ledger.Batch.{
  nonce_less, cost, commit_tx, commit, process_tx_list_parallel, IsArrivalOrder,
}
use hyperlux_chain.Ledger.Batch.Worker.{IsRun}
use hyperlux_chain.Ledger.Batch.Gather.{IsFrom, IsBatch}
use hyperlux_chain.Ledger.Batch.Arrival.{process-Processed, process-All}

-- What a transaction should satisfy, and nothing in the source checks.
abbrev pub IsPlain : Transaction → Type 0
IsPlain tx = (pos 0 ≤ℤ tx.amount) × (pos 0 ≤ℤ tx.fee) × (tx.amount +ℤ tx.fee <ℤ pos (2 ^ 63))

-- No balance is negative, and together they fit an `int`.
abbrev pub IsSound : Dict ℤ → Type 0
IsSound m = IsSolvent m × (total m <ℤ pos (2 ^ 63))

unfoldable pub fees : List Transaction → ℤ
fees [] = pos 0
fees (tx ∷ txs) = tx.fee +ℤ fees txs

pub cost_exact : (tx : Transaction) → IsPlain tx → cost tx ≡ tx.amount +ℤ tx.fee
cost_exact tx h = add64_exact tx.amount tx.fee (omega int_laws)

-- Writing a value between zero and what the total leaves room for.
write-IsSound :
    (k : Str) (v : ℤ) (m : Dict ℤ)
    → IsSound m
    → pos 0 ≤ℤ v
    → total m +ℤ v <ℤ pos (2 ^ 63) +ℤ get k m
    → IsSound (insert k v m)
write-IsSound k v m h p room =
    (insert-IsSolvent k v m p h.0, rw (total-insert k v m) (omega int_laws))

unfoldable pub debit : Transaction → Dict ℤ → Dict ℤ
debit tx m = insert tx.from (sub64 (get tx.from m) (cost tx)) m

unfoldable pub credit : Transaction → Dict ℤ → Dict ℤ
credit tx m = insert tx.to (add64 (get tx.to m) tx.amount) m

-- What a change of the balances paid in fees, with no account below what it must keep.
pub record Paid (paid : ℤ) (p : Str) (m m' : Dict ℤ) : Type 0 where
  pub sound : IsSound m'
  pub conserved : total m' +ℤ paid ≡ total m
  pub others : (a : Str) → a ≢ p → get a m ≤ℤ get a m'

pub debit_exact :
    (tx : Transaction) (m : Dict ℤ)
    → IsPlain tx
    → IsSound m
    → tx.amount +ℤ tx.fee ≤ℤ get tx.from m
    → debit tx m ≡ insert tx.from (get tx.from m -ℤ (tx.amount +ℤ tx.fee)) m
unfolding debit
debit_exact tx m plain h covered =
    ap (λ v. insert tx.from v m)
      (ap (sub64 (get tx.from m)) (cost_exact tx plain)
        ∙ sub64_exact _ _ (omega (int_laws, get-le-total tx.from m h.0, get_nonneg tx.from m h.0)))

pub debit-Paid :
    (tx : Transaction) (m : Dict ℤ)
    → IsPlain tx
    → IsSound m
    → tx.amount +ℤ tx.fee ≤ℤ get tx.from m
    → Paid (tx.amount +ℤ tx.fee) tx.from m (debit tx m)
debit-Paid tx m plain h covered = rw (debit_exact tx m plain h covered) (record {
  sound = write-IsSound tx.from _ m h (omega int_laws) (omega int_laws);
  conserved =
      omega (int_laws, eq_le (total-insert tx.from (get tx.from m -ℤ (tx.amount +ℤ tx.fee)) m));
  others = λ a ne.
      rw (get-insert_ne tx.from a (get tx.from m -ℤ (tx.amount +ℤ tx.fee)) m (λ e. ne (sym e)))
        (omega arith);
})

pub credit_exact :
    (tx : Transaction) (m : Dict ℤ)
    → IsPlain tx
    → IsSound m
    → total m +ℤ tx.amount <ℤ pos (2 ^ 63)
    → credit tx m ≡ insert tx.to (get tx.to m +ℤ tx.amount) m
unfolding credit
credit_exact tx m plain h room =
    ap (λ v. insert tx.to v m)
      (add64_exact _ _ (omega (int_laws, get-le-total tx.to m h.0, get_nonneg tx.to m h.0)))

-- A credit only adds, to whichever account.
get-credit :
    (a k : Str) (x : ℤ) (m : Dict ℤ) → pos 0 ≤ℤ x → get a m ≤ℤ get a (insert k (get k m +ℤ x) m)
get-credit a k x m p = elim (Str_discrete k a) [
  | yes e ↦
      subst (λ b. get b m ≤ℤ get b (insert k (get k m +ℤ x) m)) e
        (rw (get-insert_self k (get k m +ℤ x) m) (omega int_laws))
  | no ne ↦ rw (get-insert_ne k a (get k m +ℤ x) m ne) (omega arith)
]

pub credit-Paid :
    (tx : Transaction) (m : Dict ℤ)
    → IsPlain tx
    → IsSound m
    → total m +ℤ tx.amount <ℤ pos (2 ^ 63)
    → IsSound (credit tx m)
      × (total (credit tx m) ≡ total m +ℤ tx.amount)
      × ((a : Str) → get a m ≤ℤ get a (credit tx m))
credit-Paid tx m plain h room = rw (credit_exact tx m plain h room) (
  write-IsSound tx.to _ m h (omega (int_laws, get_nonneg tx.to m h.0)) (omega int_laws),
  omega (int_laws, eq_le (total-insert tx.to (get tx.to m +ℤ tx.amount) m)),
  λ a. get-credit a tx.to tx.amount m plain.0,
)

debited_balance :
    (tx : Transaction) (m : Dict ℤ)
    → IsPlain tx
    → IsSound m
    → tx.amount +ℤ tx.fee ≤ℤ get tx.from m
    → get tx.from (debit tx m) ≡ get tx.from m -ℤ (tx.amount +ℤ tx.fee)
debited_balance tx m plain h covered =
    rw (debit_exact tx m plain h covered) (get-insert_self tx.from _ m)

-- One commit that its sender's balance covers keeps the balances sound and costs the fee in total.
-- The sender keeps at least what the worker has reckoned, and no other account loses.
pub commit_tx-Paid :
    (tx : Transaction) (s : State)
    → IsPlain tx
    → IsSound s.balances
    → tx.amount +ℤ tx.fee ≤ℤ get tx.from s.balances
    → Paid tx.fee tx.from s.balances (commit_tx tx s).balances
      × (get tx.from s.balances -ℤ (tx.amount +ℤ tx.fee) ≤ℤ get tx.from (commit_tx tx s).balances)
unfolding commit_tx credit debit
commit_tx-Paid tx s plain h covered =
    let d = debit-Paid tx s.balances plain h covered in
    let (sound, moved, grows) =
      credit-Paid tx (debit tx s.balances) plain d.sound (omega (int_laws, eq_le d.conserved)) in
    (
      record {
        sound = sound;
        conserved = omega (int_laws, eq_le moved, eq_le d.conserved);
        others = λ a ne. omega (int_laws, d.others a ne, grows a);
      },
      omega (int_laws, grows tx.from, eq_le (debited_balance tx s.balances plain h covered)),
    )

-- What a list of commits has done to the balances, as the next parts see it.
pub record Kept (p : Str) (m m' : Dict ℤ) (final : List Transaction) : Type 0 where
  pub sound : IsSound m'
  pub conserved : total m' +ℤ fees final ≡ total m
  pub others : (a : Str) → a ≢ p → get a m ≤ℤ get a m'

-- What a worker's reckoning of one sender's balance `b` means for the state the commits have reached.
pub record Ready (p : Str) (b : ℤ) (s : State) : Type 0 where
  pub sound : IsSound s.balances
  pub reckoned_nonneg : pos 0 ≤ℤ b
  pub covers : b ≤ℤ get p s.balances

pub Ready-covers :
    (p : Str) (b : ℤ) (tx : Transaction) (s : State)
    → IsPlain tx
    → tx.from ≡ p
    → cost tx ≤ℤ b
    → Ready p b s
    → tx.amount +ℤ tx.fee ≤ℤ get tx.from s.balances
Ready-covers p b tx s plain own le r =
    omega
      (int_laws, eq_le (cost_exact tx plain), eq_le (ap (λ q. get q s.balances) own), le, r.covers)

-- The commit of one accepted transaction leaves its sender's next transactions covered.
pub Ready-commit_tx :
    (p : Str) (b : ℤ) (tx : Transaction) (s : State)
    → IsPlain tx
    → tx.from ≡ p
    → cost tx ≤ℤ b
    → Ready p b s
    → Ready p (sub64 b (cost tx)) (commit_tx tx s)
Ready-commit_tx p b tx s plain own le r =
    let price = eq_le (cost_exact tx plain) in
    let here = eq_le (ap (λ q. get q s.balances) own) in
    let (paid, left) = commit_tx-Paid tx s plain r.sound (Ready-covers p b tx s plain own le r) in
    let there = eq_le (ap (λ q. get q (commit_tx tx s).balances) own) in
    let reckoned = eq_le (
      sub64_exact b (cost tx) (
        omega (
          int_laws,
          price,
          le,
          r.covers,
          r.reckoned_nonneg,
          get-le-total p s.balances r.sound.0,
        ))) in
    record {
      sound = paid.sound;
      reckoned_nonneg = omega (int_laws, reckoned, le);
      covers = omega (int_laws, reckoned, price, here, there, left, r.covers);
    }

pub run-Kept :
    (c : Primitives) (p : Str) (n b : ℤ) (acc : List Transaction) (s : State)
    → All IsPlain acc
    → All (IsFrom p) acc
    → IsRun c n b acc
    → Ready p b s
    → Kept p s.balances (commit acc s).balances acc
unfolding commit fees
run-Kept c p n b [] s plain own run r = record {
  sound = r.sound;
  conserved = omega int_laws;
  others = λ a ne. omega arith;
}
run-Kept c p n b (tx ∷ acc) s plain own (next, run) r =
    let (paid, left) =
      commit_tx-Paid tx s plain.0 r.sound (Ready-covers p b tx s plain.0 own.0 next.2 r) in
    let k =
      run-Kept c p tx.nonce (sub64 b (cost tx)) acc (commit_tx tx s) plain.1 own.1 run
        (Ready-commit_tx p b tx s plain.0 own.0 next.2 r) in
    record {
      sound = k.sound;
      conserved = omega (int_laws, eq_le k.conserved, eq_le paid.conserved);
      others = λ a ne. omega (int_laws, k.others a ne, paid.others a (λ e. ne (e ∙ own.0)));
    }

pub commit-append :
    (xs ys : List Transaction) (s : State) → commit (xs ++ ys) s ≡ commit ys (commit xs s)
unfolding commit
commit-append [] ys s = refl
commit-append (x ∷ xs) ys s = commit-append xs ys (commit_tx x s)

pub fees-append : (xs ys : List Transaction) → fees (xs ++ ys) ≡ fees xs +ℤ fees ys
unfolding fees
fees-append [] ys = omega int_laws
fees-append (x ∷ xs) ys = omega (int_laws, eq_le (fees-append xs ys))

-- The accounts of the parts that are still to come hold at least what the snapshot says.
abbrev pub StillHold : Dict ℤ → Dict ℤ → List Str → Type 0
StillHold m m' = All (λ q. get q m ≤ℤ get q m')

pub StillHold-Kept :
    (p : Str) (m m' m'' : Dict ℤ) (final : List Transaction) (parts : List Str)
    → All (λ q. q ≢ p) parts
    → StillHold m m' parts
    → Kept p m' m'' final
    → StillHold m m'' parts
StillHold-Kept p m m' m'' final [] ne h k = tt
StillHold-Kept p m m' m'' final (q ∷ parts) ne h k =
    (omega (arith, k.others q ne.0, h.0), StillHold-Kept p m m' m'' final parts ne.1 h.1 k)

abbrev IsPaid : List Transaction → Dict ℤ → Dict ℤ → Type 0
IsPaid final m m' = IsSound m' × (total m' +ℤ fees final ≡ total m)

batch-IsPaid :
    (c : Primitives) (s : State) (parts : List Str) (final : List Transaction) (t : State)
    → IsNodup parts
    → IsBatch c s parts final
    → All IsPlain final
    → IsSolvent s.balances
    → IsSound t.balances
    → StillHold s.balances t.balances parts
    → IsPaid final t.balances (commit final t).balances
unfolding commit fees
batch-IsPaid c s [] final t d b plain snap h hold =
    subst (λ f. IsPaid f t.balances (commit f t).balances) (sym b) (h, omega int_laws)
batch-IsPaid c s (p ∷ parts) final t d (acc, rest, e, own, run, b) plain snap h hold =
    let split = subst (All IsPlain) e plain in
    let k =
      run-Kept c p _ _ acc t (All-append_left IsPlain acc rest split) own run
        (record { sound = h; reckoned_nonneg = get_nonneg p s.balances snap; covers = hold.0 }) in
    let ih =
      batch-IsPaid c s parts rest (commit acc t) d.1 b (All-append_right IsPlain acc rest split)
        snap k.sound (StillHold-Kept p s.balances t.balances _ acc parts d.0 hold.1 k) in
    subst (λ f. IsPaid f t.balances (commit f t).balances) (sym e)
      (rw (commit-append acc rest t)
        (ih.0, omega (int_laws, eq_le ih.1, eq_le k.conserved, eq_le (fees-append acc rest))))

pub StillHold-refl : (m : Dict ℤ) (parts : List Str) → StillHold m m parts
StillHold-refl m [] = tt
StillHold-refl m (p ∷ parts) = (omega arith, StillHold-refl m parts)

module _ (c : Primitives) (sorter : SliceSort nonce_less) where
  -- When no balance is negative, the balances together fit an `int`, and no transaction of the
  -- batch has a negative amount or fee or an overflowing cost, then a batch leaves no balance
  -- negative, and takes from the balances in total exactly the fees of what it committed.
  pub process-IsSound :
      (arrivals : List Str) (txs : List Transaction) (s : State) (final : List Transaction)
      (s' : State)
      → IsArrivalOrder txs arrivals
      → process_tx_list_parallel c sorter arrivals txs s ≡ some (final, s')
      → All IsPlain txs
      → IsSound s.balances
      → IsSound s'.balances × (total s'.balances +ℤ fees final ≡ total s.balances)
  process-IsSound arrivals txs s final s' p e plain h =
      let done = process-Processed c sorter arrivals txs s final s' p e in
      subst (λ (t : State). IsPaid final s.balances t.balances) (sym done.committed)
        (batch-IsPaid c s done.parts final s done.distinct done.batch
          (process-All c sorter IsPlain arrivals txs s final s' e plain) h.0 h
          (StillHold-refl s.balances done.parts))
