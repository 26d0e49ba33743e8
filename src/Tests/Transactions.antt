-- ===== src/Tests/Transactions.antt =====
-- The theorems about single transactions and the mempool at concrete inputs.
use mathlib.Core.List.{Memᴰ}
use mathlib.Core.List.Permᴰ
use hyperlux_chain.Prelude.{◌≤◌, ◌≡◌, ◌≢◌, ◌↔◌, refl, some, List, [], ◌∷◌, arith}
use hyperlux_chain.Prelude.Int.{pos, ◌≤ℤ◌}
use hyperlux_chain.Prelude.Word64.{add64, sub64}
use hyperlux_chain.Prelude.Dict.{get}
use hyperlux_chain.Ledger.Types.{Transaction, State, Wallet}
use hyperlux_chain.Ledger.Transaction.{
  get_next_nonce, new_transaction, verify_transaction, hash_transaction, accepted,
  validate_and_add_to_mempool,
}
use hyperlux_chain.Ledger.Transaction.Signing.{
  signed_by, fee_unsigned, IsKeyPair, IsAdmitted, new_transaction-IsAdmitted,
}
use hyperlux_chain.Ledger.Mempool.{ingest_loop, remove_committed_from_mempool}
use hyperlux_chain.Ledger.Mempool.Admission.{Explains, validate-Explains, process_mempool-one_each}
use hyperlux_chain.Ledger.Mempool.Removal.{IsOther, mem-remove_committed}
use hyperlux_chain.Ledger.Batch.{IsArrivalOrder, process_mempool_parallel}
use hyperlux_chain.Ledger.Batch.Forged.{any_key_spends}
use hyperlux_chain.Ledger.Batch.Nonces.{count_from}
use hyperlux_chain.Tests.Setup.{toy, toy_laws, sorter, evaluation, alice, bob, pay, repeat, ledger}

-- Alice's balance, and the key of somebody else.
next : pos 4 ≡ get_next_nonce alice ledger
unfolding evaluation
next = refl

covers : add64 (pos 90) (pos 2) ≤ℤ get alice ledger.balances
unfolding evaluation
covers = omega arith

alice_is_not_bob : alice ≢ bob
alice_is_not_bob = cc

any_key_spends_example :
    let forged = signed_by toy (9 ∷ []) (pay alice bob (pos 90) (pos 4)) in
    let (answer, waiting) = validate_and_add_to_mempool toy forged ledger in
    (answer ≡ accepted)
    × (s' : State) × (process_mempool_parallel toy sorter (alice ∷ []) waiting
        ≡ some (forged ∷ [], s'))
    × (get alice s'.balances ≡ sub64 (get alice ledger.balances) (add64 (pos 90) (pos 2)))
    × (get bob s'.balances ≡ add64 (get bob ledger.balances) (pos 90))
any_key_spends_example =
    any_key_spends toy toy_laws sorter (9 ∷ []) (pay alice bob (pos 90) (pos 4)) ledger refl next
      covers alice_is_not_bob

fee_unsigned_example :
    (verify_transaction toy (record (pay alice bob (pos 1) (pos 4)) { fee = pos 7 })
      ≡ verify_transaction toy (pay alice bob (pos 1) (pos 4)))
    × (hash_transaction toy (record (pay alice bob (pos 1) (pos 4)) { fee = pos 7 })
        ≡ hash_transaction toy (pay alice bob (pos 1) (pos 4)))
fee_unsigned_example = fee_unsigned toy (pay alice bob (pos 1) (pos 4)) (pos 7)

abbrev wallet : Wallet
wallet = record {
  address_ed = alice;
  pub_ed = repeat 32 5;
  priv_ed = repeat 64 5;
  address_sec = [];
  pub_sec = [];
  priv_sec = [];
}

-- A richer Alice, who can pay a fee of one token for each byte.
abbrev rich : State
rich = record ledger { balances = (alice, pos 1000) ∷ [] }

keys : IsKeyPair toy wallet
keys = record { priv-length = refl; pub_matches = refl }

abbrev made : Transaction
made = record (pay alice bob (pos 20) (pos 4)) { fee = pos 150 }

makes : new_transaction toy wallet bob (pos 20) rich ≡ some made
unfolding new_transaction evaluation
makes = refl

affords : add64 (pos 20) (pos 150) ≤ℤ get alice rich.balances
unfolding evaluation
affords = omega arith

new_transaction-IsAdmitted_example : IsAdmitted toy wallet bob (pos 20) rich made
new_transaction-IsAdmitted_example =
    new_transaction-IsAdmitted toy toy_laws wallet bob (pos 20) rich made keys makes affords

validate-Explains_example :
    Explains toy
      (pay alice bob (pos 99) (pos 4))
      ledger
      (validate_and_add_to_mempool toy (pay alice bob (pos 99) (pos 4)) ledger)
validate-Explains_example = validate-Explains toy (pay alice bob (pos 99) (pos 4)) ledger

-- Two payments of Alice, both admitted, with one nonce.
abbrev two : List Transaction
two = pay alice bob (pos 1) (pos 4) ∷ pay alice bob (pos 2) (pos 4) ∷ []

abbrev filled : State
filled = record ledger { mempool = two }

fills : ingest_loop toy two ledger ≡ some filled
unfolding ingest_loop validate_and_add_to_mempool evaluation
fills = refl

abbrev mined : State
mined = record filled {
  balances = (alice, pos 97) ∷ (bob, pos 11) ∷ [];
  nonce_table = (alice, pos 4) ∷ [];
}

filled_order : IsArrivalOrder two (alice ∷ [])
unfolding evaluation
filled_order = Permᴰ.refl (alice ∷ [])

mines :
    process_mempool_parallel toy sorter (alice ∷ []) filled
    ≡ some (pay alice bob (pos 1) (pos 4) ∷ [], mined)
unfolding process_mempool_parallel evaluation
mines = refl

process_mempool-one_each_example : count_from alice (pay alice bob (pos 1) (pos 4) ∷ []) ≤ 1
process_mempool-one_each_example =
    process_mempool-one_each toy sorter two ledger filled (alice ∷ []) _ mined alice refl fills
      filled_order mines

mem-remove_committed_example :
    Memᴰ
      (pay alice bob (pos 2) (pos 4))
      (remove_committed_from_mempool toy (pay alice bob (pos 1) (pos 4) ∷ []) mined).mempool
    ↔ (Memᴰ (pay alice bob (pos 2) (pos 4)) two
        × IsOther toy (pay alice bob (pos 1) (pos 4) ∷ []) (pay alice bob (pos 2) (pos 4)))
mem-remove_committed_example =
    mem-remove_committed toy (pay alice bob (pos 1) (pos 4) ∷ []) mined
      (pay alice bob (pos 2) (pos 4))
