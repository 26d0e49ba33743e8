-- ===== src/Tests/Batches.antt =====
-- The theorems about batches and the mempool at concrete inputs.
use mathlib.Core.List.{Permᴰ, Memᴰ}
use mathlib.Core.List.Permᴰ
use hyperlux_chain.Prelude.{◌^◌, ◌≡◌, refl, some, List, [], ◌∷◌, All, arith}
use hyperlux_chain.Prelude.Int.{pos, ◌+ℤ◌, ◌≤ℤ◌, ◌<ℤ◌, int_laws}
use hyperlux_chain.Prelude.Word64.{add64}
use hyperlux_chain.Prelude.Dict.{get, total}
use hyperlux_chain.Ledger.Types.{Transaction, State}
use hyperlux_chain.Ledger.Batch.{run_worker, run_worker, IsArrivalOrder, process_tx_list_parallel}
use hyperlux_chain.Ledger.Batch.Nonces.{count_from, process-nonces}
use hyperlux_chain.Ledger.Batch.Conservation.{IsSound, IsPlain, fees, process-IsSound}
use hyperlux_chain.Ledger.Batch.Worker.{Ran, run_worker-Ran}
use hyperlux_chain.Ledger.Batch.Order.{AgreeOnAccounts, HoldsWords, process-order}
use hyperlux_chain.Ledger.Batch.Refinement.{ExecutesAll, view, process-ExecutesAll}
use hyperlux_chain.Ledger.Batch.Progress.{process-stale}
use hyperlux_chain.Tests.Setup.{toy, sorter, evaluation, alice, bob, pay, ledger}

abbrev batch : List Transaction
batch =
    pay alice bob (pos 10) (pos 5)
    ∷ pay bob alice (pos 3) (pos 1)
    ∷ pay alice bob (pos 20) (pos 4)
    ∷ []

abbrev after : State
after = record ledger {
  balances = (alice, pos 69) ∷ (bob, pos 35) ∷ [];
  nonce_table = (alice, pos 5) ∷ (bob, pos 1) ∷ [];
}

abbrev ran : List Transaction
ran =
    pay alice bob (pos 20) (pos 4)
    ∷ pay alice bob (pos 10) (pos 5)
    ∷ pay bob alice (pos 3) (pos 1)
    ∷ []

batch_runs : process_tx_list_parallel toy sorter (alice ∷ bob ∷ []) batch ledger ≡ some (ran, after)
unfolding evaluation
batch_runs = refl

order : IsArrivalOrder batch (alice ∷ bob ∷ [])
unfolding evaluation
order = Permᴰ.refl (alice ∷ bob ∷ [])

plain : All IsPlain batch
plain = omega int_laws

sound : IsSound ledger.balances
unfolding evaluation
sound = omega arith

words : HoldsWords ledger
unfolding evaluation
words a = (ground arith, ground arith)

process-IsSound_example :
    IsSound after.balances × (total after.balances +ℤ fees ran ≡ total ledger.balances)
process-IsSound_example =
    process-IsSound toy sorter (alice ∷ bob ∷ []) batch ledger ran after order batch_runs plain
      sound

process-nonces_example :
    get alice after.nonce_table ≡ add64 (get alice ledger.nonce_table) (pos (count_from alice ran))
process-nonces_example =
    process-nonces toy sorter (alice ∷ bob ∷ []) batch ledger ran after alice order batch_runs
      (words alice).1

-- The parts arrive the other way round.
swapped : IsArrivalOrder batch (bob ∷ alice ∷ [])
unfolding evaluation
swapped = Permᴰ.swap refl refl

process-order_example :
    (final' : List Transaction) × (s'' : State) × (process_tx_list_parallel toy sorter
        (bob ∷ alice ∷ [])
        batch
        ledger
      ≡ some (final', s''))
    × Permᴰ ran final'
    × AgreeOnAccounts after s''
process-order_example =
    process-order toy sorter (alice ∷ bob ∷ []) (bob ∷ alice ∷ []) batch ledger ran after order
      swapped words batch_runs

worker_runs :
    run_worker toy
      (pos 3)
      (pos 30)
      (pay alice bob (pos 20) (pos 4) ∷ pay alice bob (pos 10) (pos 5) ∷ [])
    ≡ some (pay alice bob (pos 20) (pos 4) ∷ [])
unfolding evaluation
worker_runs = refl

run_worker-Ran_example :
    Ran toy
      (pos 3)
      (pos 30)
      (pay alice bob (pos 20) (pos 4) ∷ pay alice bob (pos 10) (pos 5) ∷ [])
      (pay alice bob (pos 20) (pos 4) ∷ [])
run_worker-Ran_example = run_worker-Ran toy (pos 3) (pos 30) _ _ worker_runs

-- A transaction with a nonce that has been used already, and a good one behind it.
abbrev stale_batch : List Transaction
stale_batch = pay alice bob (pos 10) (pos 4) ∷ pay alice bob (pos 1) (pos 3) ∷ []

stale_runs : process_tx_list_parallel toy sorter (alice ∷ []) stale_batch ledger ≡ some ([], ledger)
unfolding evaluation
stale_runs = refl

stale_order : IsArrivalOrder stale_batch (alice ∷ [])
unfolding evaluation
stale_order = Permᴰ.refl (alice ∷ [])

used : pos 3 ≤ℤ get alice ledger.nonce_table
unfolding evaluation
used = omega arith

not_last : get alice ledger.nonce_table +ℤ pos 1 <ℤ pos (2 ^ 63)
unfolding evaluation
not_last = omega arith

process-stale_example : count_from alice [] ≡ 0
process-stale_example =
    process-stale toy sorter (alice ∷ []) stale_batch ledger [] ledger
      (pay alice bob (pos 1) (pos 3)) stale_order stale_runs (Memᴰ.tail (Memᴰ.head refl)) used
      (words alice).1 not_last

process-ExecutesAll_example : ExecutesAll toy (view ledger) ran (view after)
process-ExecutesAll_example =
    process-ExecutesAll toy sorter (alice ∷ bob ∷ []) batch ledger ran after order batch_runs plain
      sound
