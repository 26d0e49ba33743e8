-- ===== src/Ledger/Batch/Worker.antt =====
-- The loop of one worker of ProcessTxListParallel (ledger/transaction.go).
use hyperlux_chain.Prelude.{
  ◌≡◌, refl, ap, sym, ◌∙◌, subst, ◌⊎◌, inl, inr, true, some, List, [], ◌∷◌, ◌++◌, arith, Bool-cases,
  Option-cases, map-eq_some,
}
use mathlib.Core.Option
use hyperlux_chain.Prelude.Int.{ℤ, pos, ltb_ℤ, ◌≤ℤ◌}
use hyperlux_chain.Prelude.Word64.{add64, sub64, eqb_ℤ}
use hyperlux_chain.Primitives.{Primitives}
use hyperlux_chain.Ledger.Types.{Transaction}
use hyperlux_chain.Ledger.Transaction.{verify_transaction}
use hyperlux_chain.Ledger.Batch.{cost, run_worker}

-- The transaction may come next, after the local nonce and from the local balance.
abbrev pub IsNext : Primitives → ℤ → ℤ → Transaction → Type 0
IsNext c n b tx =
    (tx.nonce ≡ add64 n (pos 1)) × (verify_transaction c tx ≡ some true) × (cost tx ≤ℤ b)

-- The transactions may come one after the other.
abbrev pub IsRun : Primitives → ℤ → ℤ → List Transaction → Type 0
IsRun c n b [] = Unit
IsRun c n b (tx ∷ txs) = IsNext c n b tx × IsRun c tx.nonce (sub64 b (cost tx)) txs

-- The list begins with a transaction that may not come next, or is empty.
abbrev pub IsStopped : Primitives → ℤ → ℤ → List Transaction → Type 0
IsStopped c n b [] = Unit
IsStopped c n b (tx ∷ txs) = ¬ IsNext c n b tx

abbrev pub nonce_after : ℤ → List Transaction → ℤ
nonce_after n [] = n
nonce_after n (tx ∷ txs) = nonce_after tx.nonce txs

abbrev pub balance_after : ℤ → List Transaction → ℤ
balance_after b [] = b
balance_after b (tx ∷ txs) = balance_after (sub64 b (cost tx)) txs

-- What a worker did with its part: it ran some first transactions, and stopped at the rest.
pub record Ran (c : Primitives) (n b : ℤ) (txs acc : List Transaction) : Type 0 where
  pub rest : List Transaction
  pub splits : txs ≡ acc ++ rest
  pub is_run : IsRun c n b acc
  pub is_stopped : IsStopped c (nonce_after n acc) (balance_after b acc) rest

Ran-nil :
    (c : Primitives) (n b : ℤ) (txs : List Transaction) → IsStopped c n b txs → Ran c n b txs []
Ran-nil c n b txs stop = record { rest = txs; splits = refl; is_run = tt; is_stopped = stop }

Ran-cons :
    (c : Primitives) (n b : ℤ) (tx : Transaction) (txs acc : List Transaction)
    → IsNext c n b tx
    → Ran c tx.nonce (sub64 b (cost tx)) txs acc
    → Ran c n b (tx ∷ txs) (tx ∷ acc)
Ran-cons c n b tx txs acc next r = record {
  rest = r.rest;
  splits = ap (◌∷◌ tx) r.splits;
  is_run = (next, r.is_run);
  is_stopped = r.is_stopped;
}

IsNext-cases : (c : Primitives) (n b : ℤ) (tx : Transaction) → IsNext c n b tx ⊎ (¬ IsNext c n b tx)
IsNext-cases c n b tx = elim (Option-cases (verify_transaction c tx)) [
  | inl e ↦ inr (λ h. cc (h.1))
  | inr (v, e) ↦ elim (Bool-cases v) [
    | inl t ↦ elim (Bool-cases (eqb_ℤ tx.nonce (add64 n (pos 1)))) [
      | inl same ↦ elim (Bool-cases (ltb_ℤ b (cost tx))) [
        | inl short ↦ inr (λ h. ground (arith, h.2))
        | inr covered ↦ inl (ground arith, cc, ground arith)
      ]
      | inr other ↦ inr (λ h. ground (arith, h.0))
    ]
    | inr f ↦ inr (λ h. cc (h.1))
  ]
]

run_worker-next :
    (c : Primitives) (n b : ℤ) (tx : Transaction) (txs : List Transaction)
    → IsNext c n b tx
    → run_worker c n b (tx ∷ txs)
      ≡ Option.map (◌∷◌ tx) (run_worker c tx.nonce (sub64 b (cost tx)) txs)
unfolding run_worker
run_worker-next c n b tx txs h = rw h.1 (ground (arith, h.0, h.2))

run_worker-stop :
    (c : Primitives) (n b : ℤ) (tx : Transaction) (txs acc : List Transaction)
    → ¬ IsNext c n b tx
    → run_worker c n b (tx ∷ txs) ≡ some acc
    → acc ≡ []
unfolding run_worker
run_worker-stop c n b tx txs acc h e = elim (Bool-cases (ltb_ℤ b (cost tx))) [
  | inl short ↦ ground arith
  | inr covered ↦ elim (Bool-cases (eqb_ℤ tx.nonce (add64 n (pos 1)))) [
    | inl same ↦ elim (Option-cases (verify_transaction c tx)) [
      | inl e' ↦ ground arith
      | inr (v, e') ↦ elim (Bool-cases v) [
        | inl t ↦ absurd (h (ground arith, cc, ground arith))
        | inr f ↦ ground arith
      ]
    ]
    | inr other ↦ ground arith
  ]
]

-- What a worker accepts is a run, and the longest with which its part begins: each transaction has
-- the nonce that follows, a signature that verifies and a cost that the balance left covers, and
-- the first one that was not accepted fails one of these.
pub run_worker-Ran :
    (c : Primitives) (n b : ℤ) (txs acc : List Transaction)
    → run_worker c n b txs ≡ some acc
    → Ran c n b txs acc
unfolding run_worker
run_worker-Ran c n b [] acc e = subst (Ran c n b []) (ground arith) (Ran-nil c n b [] tt)
run_worker-Ran c n b (tx ∷ txs) acc e = elim (IsNext-cases c n b tx) [
  | inl next ↦
      let (rest, ran, joined) =
        map-eq_some (◌∷◌ tx) (run_worker c tx.nonce (sub64 b (cost tx)) txs) acc
          (sym (run_worker-next c n b tx txs next) ∙ e) in
      subst (Ran c n b (tx ∷ txs)) joined (
        Ran-cons c n b tx txs rest next
          (run_worker-Ran c tx.nonce (sub64 b (cost tx)) txs rest ran))
  | inr stop ↦
      subst (Ran c n b (tx ∷ txs)) (sym (run_worker-stop c n b tx txs acc stop e))
        (Ran-nil c n b (tx ∷ txs) stop)
]
