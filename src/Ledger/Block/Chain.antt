-- ===== src/Ledger/Block/Chain.antt =====
-- The chain of blocks: what AddBlock and AddBlockWithTxs keep, and what they change.
use hyperlux_chain.Prelude.{
  Option, none, some, ℕ, suc, ◌+◌, ◌≡◌, refl, subst, false, inl, inr, List, [], ◌∷◌, ◌++◌, length,
  is_empty, arith, Bool-cases,
}
use hyperlux_chain.Prelude.Int.{ℤ, pos}
use hyperlux_chain.Prelude.Str.{Str, codes}
use hyperlux_chain.Primitives.{Primitives}
use hyperlux_chain.Ledger.Types.{Transaction, Block, ValidatorDef, Wallet, State}
use hyperlux_chain.Ledger.Storage.{save_all_data}
use hyperlux_chain.Ledger.Mempool.{mempool_snapshot, clear_mempool}
use hyperlux_chain.Ledger.Block.{
  compute_merkle_root, hash_block_header, new_block, genesis, with_genesis, last_hash, add_block,
  add_block_with_txs,
}

-- A block with the index and the previous hash that its place asks for, whose hash and Merkle root
-- are those of its contents.
pub record FitsAt (c : Primitives) (i : ℕ) (prev : Str) (b : Block) : Type 0 where
  pub at_index : b.index ≡ pos i
  pub follows : b.prev_hash ≡ prev
  pub root : b.merkle_root ≡ compute_merkle_root c b.transactions
  pub sealed : b.hash ≡ hash_block_header c b.index b.timestamp b.prev_hash b.merkle_root b.proposer

-- Each block fits at its place and names the hash of the block before it.
abbrev pub IsLinkedFrom : Primitives → ℕ → Str → List Block → Type 0
IsLinkedFrom c i prev [] = Unit
IsLinkedFrom c i prev (b ∷ bs) = FitsAt c i prev b × IsLinkedFrom c (suc i) b.hash bs

-- A chain, from a genesis block with the previous hash "0" on; it may be empty.
abbrev pub IsChain : Primitives → List Block → Type 0
IsChain c = IsLinkedFrom c 0 (codes "0")

module _ (c : Primitives) where
  new_block-FitsAt :
      (now : ℤ) (i : ℕ) (txs : List Transaction) (prev : Str) (w : Option Wallet)
      → FitsAt c i prev (new_block c now (pos i) txs prev w)
  unfolding new_block
  new_block-FitsAt now i txs prev w = record {
    at_index = refl;
    follows = refl;
    root = refl;
    sealed = refl;
  }

  linked_snoc :
      (bs : List Block) (i : ℕ) (prev : Str) (b : Block)
      → IsLinkedFrom c i prev bs
      → FitsAt c (i + length bs) (last_hash prev bs) b
      → IsLinkedFrom c i prev (bs ++ (b ∷ []))
  linked_snoc [] i prev b h f = (subst (λ j. FitsAt c j prev b) (omega arith) f, tt)
  linked_snoc (d ∷ ds) i prev b h f = (
    h.0,
    linked_snoc ds (suc i) d.hash b h.1
        (subst (λ j. FitsAt c j (last_hash d.hash ds) b) (omega arith) f),
  )

  pub with_genesis-IsChain :
      (now : ℤ) (s : State) → IsChain c s.blockchain → IsChain c (with_genesis c now s).blockchain
  unfolding with_genesis genesis
  with_genesis-IsChain now s h = elim (Bool-cases (is_empty s.blockchain)) [
    | inl e ↦ rw e (new_block-FitsAt now 0 [] (codes "0") none, tt)
    | inr e ↦ rw e h
  ]

  with_genesis_nonempty : (now : ℤ) (s : State) → is_empty (with_genesis c now s).blockchain ≡ false
  unfolding with_genesis
  with_genesis_nonempty now s = ground arith

  last_hash_start :
      (p q : Str) (bs : List Block) → is_empty bs ≡ false → last_hash p bs ≡ last_hash q bs
  last_hash_start p q [] e = cc
  last_hash_start p q (b ∷ bs) e = refl

  -- The chain after a block made from the last hash and the length is appended.
  appended-IsChain :
      (now now1 : ℤ) (s : State) (txs : List Transaction) (w : Option Wallet)
      → IsChain c s.blockchain
      → let bs = (with_genesis c now s).blockchain in
        IsChain c (bs ++ (new_block c now1 (pos (length bs)) txs (last_hash [] bs) w ∷ []))
  appended-IsChain now now1 s txs w h =
      let bs = (with_genesis c now s).blockchain in
      linked_snoc bs 0 (codes "0") (new_block c now1 (pos (length bs)) txs (last_hash [] bs) w)
        (with_genesis-IsChain now s h)
        (subst
          (λ p.
            FitsAt c (0 + length bs) p (new_block c now1 (pos (length bs)) txs (last_hash [] bs) w))
          (last_hash_start [] (codes "0") bs (with_genesis_nonempty now s))
          (subst
            (λ j.
              FitsAt c j (last_hash [] bs)
                (new_block c now1 (pos (length bs)) txs (last_hash [] bs) w))
            (omega arith) (new_block-FitsAt now1 (length bs) txs (last_hash [] bs) w)))

  -- AddBlockWithTxs keeps the chain linked, and so is the chain that it writes to the store.
  pub add_block_with_txs-IsChain :
      (now0 now1 : ℤ) (val : ValidatorDef) (txs : List Transaction) (s : State)
      → IsChain c s.blockchain
      → let s' = (add_block_with_txs c now0 now1 val txs s).1 in
        IsChain c s'.blockchain × (s'.disk.saved_blockchain ≡ some s'.blockchain)
  unfolding add_block_with_txs save_all_data
  add_block_with_txs-IsChain now0 now1 val txs s h = (appended-IsChain now0 now1 s txs none h, refl)

  -- AddBlock keeps the chain linked, and leaves the mempool empty.
  pub add_block-IsChain :
      (now0 now1 : ℤ) (w : Option Wallet) (s : State)
      → IsChain c s.blockchain
      → let s' = (add_block c now0 now1 w s).1 in
        IsChain c s'.blockchain
        × (s'.disk.saved_blockchain ≡ some s'.blockchain)
        × (s'.mempool ≡ [])
  unfolding add_block save_all_data mempool_snapshot clear_mempool
  add_block-IsChain now0 now1 w s h =
      (appended-IsChain now0 now1 s (with_genesis c now0 s).mempool w h, refl, refl)
