-- ===== src/Tests/Blocks.antt =====
-- The theorems about blocks at concrete inputs.
use hyperlux_chain.Prelude.{
  ℕ, zero, suc, ◌%◌, ◌≡◌, ◌⊎◌, refl, some, List, [], ◌∷◌, ◌++◌, map, length, arith,
}
use hyperlux_chain.Prelude.Int.{pos}
use hyperlux_chain.Prelude.Str.{Str, codes, IsBytes}
use hyperlux_chain.Primitives.{Primitives, DigestLaws}
use hyperlux_chain.Ledger.Types.{Transaction, State, Wallet}
use hyperlux_chain.Ledger.Transaction.{hash_transaction}
use hyperlux_chain.Ledger.Block.{
  compute_merkle_root, leaf, next_level, merkle_loop, first_hash, add_block, add_block_with_txs,
}
use hyperlux_chain.Codec.{hex_encode}
use hyperlux_chain.Ledger.Block.Rounds.{compute_merkle_root-rounds}
use hyperlux_chain.Ledger.Block.Merkle.{Collides, root_texts, compute_merkle_root-binds}
use hyperlux_chain.Ledger.Block.Doubled.{compute_merkle_root-doubled}
use hyperlux_chain.Ledger.Block.Chain.{IsChain, add_block_with_txs-IsChain, add_block-IsChain}
use hyperlux_chain.Tests.Setup.{toy, evaluation, alice, bob, pay, ledger}

-- A digest that keeps the first 32 bytes.
digest : ℕ → Str → Str
digest zero s = []
digest (suc n) [] = 0 ∷ digest n []
digest (suc n) (b ∷ s) = b % 256 ∷ digest n s

digest-IsBytes : (n : ℕ) (s : Str) → IsBytes (digest n s)
unfolding digest
digest-IsBytes zero s = tt
digest-IsBytes (suc n) [] = (omega arith, digest-IsBytes n [])
digest-IsBytes (suc n) (b ∷ s) = (omega arith, digest-IsBytes n s)

digest-length : (n : ℕ) (s : Str) → length (digest n s) ≡ n
unfolding digest
digest-length zero s = refl
digest-length (suc n) [] = omega (arith, digest-length n [])
digest-length (suc n) (b ∷ s) = omega (arith, digest-length n s)

abbrev short : Primitives
short = record toy { sha256 = digest 32 }

short_laws : DigestLaws short
short_laws = record { sha256-IsBytes = digest-IsBytes 32; sha256-length = digest-length 32 }

-- Two payments that differ behind the first 32 bytes of what is hashed.
abbrev long_name : Str
long_name = codes "somebody-with-quite-a-long-name"

abbrev paid_one : List Transaction
paid_one = pay alice long_name (pos 1) (pos 4) ∷ pay alice bob (pos 1) (pos 5) ∷ []

abbrev paid_two : List Transaction
paid_two = pay alice long_name (pos 2) (pos 4) ∷ pay alice bob (pos 1) (pos 5) ∷ []

same_root : compute_merkle_root short paid_one ≡ compute_merkle_root short paid_two
unfolding compute_merkle_root leaf next_level merkle_loop hash_transaction digest evaluation
same_root = refl

compute_merkle_root-binds_example :
    (map (hash_transaction short) paid_one ≡ map (hash_transaction short) paid_two)
    ⊎ Collides short (root_texts short paid_one) (root_texts short paid_two)
compute_merkle_root-binds_example =
    compute_merkle_root-binds short short_laws paid_one paid_two refl same_root

compute_merkle_root-doubled_example :
    compute_merkle_root toy (paid_one ++ (pay bob alice (pos 3) (pos 1) ∷ []))
    ≡ compute_merkle_root toy
        (paid_one ++ (pay bob alice (pos 3) (pos 1) ∷ pay bob alice (pos 3) (pos 1) ∷ []))
compute_merkle_root-doubled_example =
    compute_merkle_root-doubled toy 0 paid_one (pay bob alice (pos 3) (pos 1)) refl

add_block_with_txs-IsChain_example :
    let s' =
      (add_block_with_txs toy
        (pos 7)
        (pos 8)
        (record { address = bob; stake = pos 4 })
        paid_one
        ledger).1 in
    IsChain toy s'.blockchain × (s'.disk.saved_blockchain ≡ some s'.blockchain)
add_block_with_txs-IsChain_example =
    add_block_with_txs-IsChain toy (pos 7) (pos 8) (record { address = bob; stake = pos 4 })
      paid_one ledger tt

abbrev purse : Wallet
purse = record {
  address_ed = bob;
  pub_ed = [];
  priv_ed = [];
  address_sec = [];
  pub_sec = [];
  priv_sec = [];
}

abbrev waiting : State
waiting = record ledger { mempool = paid_one }

add_block-IsChain_example :
    let s' = (add_block toy (pos 7) (pos 8) (some purse) waiting).1 in
    IsChain toy s'.blockchain × (s'.disk.saved_blockchain ≡ some s'.blockchain) × (s'.mempool ≡ [])
add_block-IsChain_example = add_block-IsChain toy (pos 7) (pos 8) (some purse) waiting tt

abbrev paid_three : List Transaction
paid_three = pay bob alice (pos 3) (pos 1) ∷ paid_one

compute_merkle_root-rounds_example :
    (length (merkle_loop toy 2 (map (leaf toy) paid_three)) ≡ 1)
    × (compute_merkle_root toy paid_three
        ≡ hex_encode (first_hash (merkle_loop toy 2 (map (leaf toy) paid_three))))
compute_merkle_root-rounds_example =
    compute_merkle_root-rounds toy 2 paid_three (omega arith) (omega arith)
