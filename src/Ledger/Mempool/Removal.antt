-- ===== src/Ledger/Mempool/Removal.antt =====
-- RemoveCommittedFromMempool (ledger/transaction.go).
use mathlib.Core.List.{Memᴰ}
use hyperlux_chain.Prelude.{
  ◌≡◌, ◌≢◌, ◌↔◌, refl, subst, inl, inr, true, false, List, [], ◌∷◌, map, is_empty, All, All-mem,
  arith, Bool-cases,
}
use hyperlux_chain.Prelude.Str.{Str, Str_discrete}
use hyperlux_chain.Primitives.{Primitives}
use hyperlux_chain.Ledger.Types.{Transaction, State}
use hyperlux_chain.Ledger.Transaction.{hash_transaction}
use hyperlux_chain.Ledger.Mempool.{contains, keep_others, remove_committed_from_mempool}

-- The transaction's hash is that of none of the committed ones.
abbrev pub IsOther : Primitives → List Transaction → Transaction → Type 0
IsOther c committed t = All (λ u. hash_transaction c u ≢ hash_transaction c t) committed

contains-IsOther :
    (c : Primitives) (committed : List Transaction) (t : Transaction)
    → contains (hash_transaction c t) (map (hash_transaction c) committed) ≡ false
    → IsOther c committed t
unfolding contains
contains-IsOther c [] t h = tt
contains-IsOther c (u ∷ us) t h =
    elim (Str_discrete (hash_transaction c u) (hash_transaction c t)) [
      | yes e ↦ absurd (ground arith)
      | no ne ↦ (ne, contains-IsOther c us t (ground arith))
    ]

IsOther-contains :
    (c : Primitives) (committed : List Transaction) (t : Transaction)
    → IsOther c committed t
    → contains (hash_transaction c t) (map (hash_transaction c) committed) ≡ false
unfolding contains
IsOther-contains c [] t h = refl
IsOther-contains c (u ∷ us) t h = ground (arith, IsOther-contains c us t h.1)

keep_others-IsOther :
    (c : Primitives) (committed txs : List Transaction)
    → All (IsOther c committed) (keep_others c (map (hash_transaction c) committed) txs)
unfolding keep_others
keep_others-IsOther c committed [] = tt
keep_others-IsOther c committed (t ∷ txs) =
    elim (Bool-cases (contains (hash_transaction c t) (map (hash_transaction c) committed))) [
      | inl gone ↦ rw gone (keep_others-IsOther c committed txs)
      | inr stays ↦
          rw stays (contains-IsOther c committed t stays, keep_others-IsOther c committed txs)
    ]

keep_others-mem :
    (c : Primitives) (committed txs : List Transaction) (t : Transaction)
    → IsOther c committed t
    → Memᴰ t txs
    → Memᴰ t (keep_others c (map (hash_transaction c) committed) txs)
unfolding keep_others
keep_others-mem c committed [] t h m = elim m [ ]
keep_others-mem c committed (x ∷ txs) t h (Memᴰ.head e) =
    rw
      (subst (λ u. contains (hash_transaction c u) (map (hash_transaction c) committed) ≡ false) e
        (IsOther-contains c committed t h))
      (Memᴰ.head e)
keep_others-mem c committed (x ∷ txs) t h (Memᴰ.tail m) =
    elim (Bool-cases (contains (hash_transaction c x) (map (hash_transaction c) committed))) [
      | inl gone ↦ rw gone (keep_others-mem c committed txs t h m)
      | inr stays ↦ rw stays (Memᴰ.tail (keep_others-mem c committed txs t h m))
    ]

mem_under_cons :
    {t x : Transaction} {xs ys : List Transaction}
    → (Memᴰ t xs → Memᴰ t ys)
    → Memᴰ t (x ∷ xs)
    → Memᴰ t (x ∷ ys)
mem_under_cons f (Memᴰ.head e) = Memᴰ.head e
mem_under_cons f (Memᴰ.tail m) = Memᴰ.tail (f m)

keep_others-from :
    (c : Primitives) (hashes : List Str) (txs : List Transaction) (t : Transaction)
    → Memᴰ t (keep_others c hashes txs)
    → Memᴰ t txs
unfolding keep_others
keep_others-from c hashes [] t m = m
keep_others-from c hashes (x ∷ txs) t m =
    elim (Bool-cases (contains (hash_transaction c x) hashes)) [
      | inl gone ↦ Memᴰ.tail (keep_others-from c hashes txs t (rw gone at m))
      | inr stays ↦ mem_under_cons (keep_others-from c hashes txs t) (rw stays at m)
    ]

keep_others_nil :
    (c : Primitives) (hashes : List Str) (txs : List Transaction)
    → is_empty txs ≡ true
    → txs ≡ keep_others c hashes txs
unfolding keep_others
keep_others_nil c hashes [] e = refl
keep_others_nil c hashes (x ∷ txs) e = cc

remove_committed-keep_others :
    (c : Primitives) (u : Transaction) (us : List Transaction) (s : State)
    → (remove_committed_from_mempool c (u ∷ us) s).mempool
      ≡ keep_others c (map (hash_transaction c) (u ∷ us)) s.mempool
unfolding remove_committed_from_mempool
remove_committed-keep_others c u us s = elim (Bool-cases (is_empty s.mempool)) [
  | inl e ↦ rw e (keep_others_nil c _ s.mempool e)
  | inr e ↦ rw e
]

-- After the call a transaction waits in the mempool exactly when it did before and its hash is that
-- of no committed transaction.
pub mem-remove_committed :
    (c : Primitives) (committed : List Transaction) (s : State) (t : Transaction)
    → Memᴰ t (remove_committed_from_mempool c committed s).mempool
      ↔ (Memᴰ t s.mempool × IsOther c committed t)
unfolding remove_committed_from_mempool
mem-remove_committed c [] s t = (λ m. (m, tt), λ p. p.0)
mem-remove_committed c (u ∷ us) s t = rw (remove_committed-keep_others c u us s) (
  λ m. (
    keep_others-from c _ s.mempool t m,
    All-mem (IsOther c (u ∷ us)) (keep_others-IsOther c (u ∷ us) s.mempool) m,
  ),
  λ p. keep_others-mem c (u ∷ us) s.mempool t p.1 p.0,
)
