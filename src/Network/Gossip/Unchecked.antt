-- ===== src/Network/Gossip/Unchecked.antt =====
-- What the loops of network/gossip.go let in.
use mathlib.Core.List.{append-nil, append_assoc}
use hyperlux_chain.Prelude.{
  ℕ, suc, ◌+◌, ◌≤◌, ◌≡◌, ◌≢◌, ◌↔◌, refl, sym, subst, ◌∙◌, Bool, true, false, Option, none, some,
  List, [], ◌∷◌, ◌++◌, length, length-append, ltb, All, All-append, arith, inl, inr, Bool-cases,
}
use hyperlux_chain.Prelude.Str.{Str, codes}
use hyperlux_chain.Primitives.{Primitives}
use hyperlux_chain.Ledger.Types.{State, Block}
use hyperlux_chain.Ledger.Storage.{save_blockchain}
use hyperlux_chain.Ledger.Block.{last_hash}
use hyperlux_chain.Ledger.Block.Chain.{IsLinkedFrom, IsChain}
use hyperlux_chain.Network.MiniBlock.{MiniBlock, verify_mini_block, publish_mini_block}
use hyperlux_chain.Network.Gossip.{
  receive_block, receive_blocks, receive_mini_block, receive_mini_blocks,
}

-- The blocks of the messages that decode.
unfoldable pub decoded : List (Option Block) → List Block
decoded [] = []
decoded (none ∷ ms) = decoded ms
decoded (some b ∷ ms) = b ∷ decoded ms

receive_blocks-blockchain :
    (ms : List (Option Block)) (s : State)
    → (receive_blocks ms s).blockchain ≡ s.blockchain ++ decoded ms
unfolding receive_blocks receive_block save_blockchain decoded
receive_blocks-blockchain [] s = sym (append-nil s.blockchain)
receive_blocks-blockchain (none ∷ ms) s = receive_blocks-blockchain ms s
receive_blocks-blockchain (some b ∷ ms) s =
    receive_blocks-blockchain ms (receive_block (some b) s)
    ∙ append_assoc s.blockchain (b ∷ []) (decoded ms)

module _ (c : Primitives) where
  linked-append :
      (bs ds : List Block) (i : ℕ) (prev : Str)
      → IsLinkedFrom c i prev bs
      → IsLinkedFrom c (i + length bs) (last_hash prev bs) ds
      → IsLinkedFrom c i prev (bs ++ ds)
  linked-append [] ds i prev h k = subst (λ j. IsLinkedFrom c j prev ds) (omega arith) k
  linked-append (b ∷ bs) ds i prev h k = (
    h.0,
    linked-append bs ds (suc i) b.hash h.1
        (subst (λ j. IsLinkedFrom c j (last_hash b.hash bs) ds) (omega arith) k),
  )

  linked_rest :
      (bs ds : List Block) (i : ℕ) (prev : Str)
      → IsLinkedFrom c i prev (bs ++ ds)
      → IsLinkedFrom c (i + length bs) (last_hash prev bs) ds
  linked_rest [] ds i prev h = subst (λ j. IsLinkedFrom c j prev ds) (omega arith) h
  linked_rest (b ∷ bs) ds i prev h =
      subst (λ j. IsLinkedFrom c j (last_hash b.hash bs) ds) (omega arith)
        (linked_rest bs ds (suc i) b.hash h.1)

  -- Whatever decodes as a block is appended and nothing is checked: a chain that is linked stays
  -- linked exactly when the peers' blocks, in the order of their arrival, go on from its last block.
  pub receive_blocks-IsChain :
      (ms : List (Option Block)) (s : State)
      → IsChain c s.blockchain
      → IsChain c (receive_blocks ms s).blockchain
        ↔ IsLinkedFrom c (length s.blockchain) (last_hash (codes "0") s.blockchain) (decoded ms)
  receive_blocks-IsChain ms s h =
      let prev = codes "0" in
      let bs = s.blockchain in
      rw (receive_blocks-blockchain ms s) (
        subst
          (λ j. IsChain c (bs ++ decoded ms) ↔ IsLinkedFrom c j (last_hash prev bs) (decoded ms))
          (omega arith)
          (linked_rest bs (decoded ms) 0 prev, linked-append bs (decoded ms) 0 prev h))

  -- The bus holds mini-blocks whose signatures are right, and no more than its capacity.
  pub record IsChecked (bus : List MiniBlock) : Type 0 where
    pub verified : All (λ mb. verify_mini_block c mb ≡ some true) bus
    pub small : length bus ≤ 8192

  publish-IsChecked :
      (mb : MiniBlock) (bus : List MiniBlock)
      → verify_mini_block c mb ≡ some true
      → IsChecked bus
      → IsChecked (publish_mini_block mb bus)
  unfolding publish_mini_block
  publish-IsChecked mb bus v k = elim (Bool-cases (ltb (length bus) 8192)) [
    | inl e ↦ rw e (record {
      verified = All-append _ bus (mb ∷ []) k.verified (v, tt);
      small = grind (arith, e, length-append bus (mb ∷ []));
    })
    | inr e ↦ rw e k
  ]

  -- The check of the mini-block does not panic.
  abbrev pub IsHandled : Option MiniBlock → Type 0
  IsHandled none = Unit
  IsHandled (some mb) = verify_mini_block c mb ≢ none

  abbrev Receives : Option (List MiniBlock) → Type 0
  Receives r = (bus : List MiniBlock) × (r ≡ some bus) × IsChecked bus

  checked-Receives :
      (mb : MiniBlock) (bus : List MiniBlock) (v : Option Bool)
      → verify_mini_block c mb ≡ v
      → v ≢ none
      → IsChecked bus
      → Receives (receive_mini_block c (some mb) bus)
  unfolding receive_mini_block
  checked-Receives mb bus none e n k = absurd (n refl)
  checked-Receives mb bus (some false) e n k = rw (e, receive_mini_block) (bus, refl, k)
  checked-Receives mb bus (some true) e n k =
      rw (e, receive_mini_block) (publish_mini_block mb bus, refl, publish-IsChecked mb bus e k)

  receive-Receives :
      (m : Option MiniBlock) (bus : List MiniBlock)
      → IsHandled m
      → IsChecked bus
      → Receives (receive_mini_block c m bus)
  unfolding receive_mini_block
  receive-Receives none bus h k = (bus, refl, k)
  receive-Receives (some mb) bus h k = checked-Receives mb bus (verify_mini_block c mb) refl h k

  -- When no check panics, every message is worked off, and the bus still holds only mini-blocks
  -- whose signatures are right, and no more of them than its capacity.
  pub receive_mini_blocks-IsChecked :
      (ms : List (Option MiniBlock)) (bus : List MiniBlock)
      → All IsHandled ms
      → IsChecked bus
      → (bus' : List MiniBlock) × (receive_mini_blocks c ms bus ≡ some bus') × IsChecked bus'
  unfolding receive_mini_blocks
  receive_mini_blocks-IsChecked [] bus h k = (bus, refl, k)
  receive_mini_blocks-IsChecked (m ∷ ms) bus h k =
      let (bus', e, k') = receive-Receives m bus h.0 k in
      rw (e, receive_mini_blocks) (receive_mini_blocks-IsChecked ms bus' h.1 k')
