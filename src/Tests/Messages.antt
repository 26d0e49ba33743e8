-- ===== src/Tests/Messages.antt =====
-- The theorems about what arrives from peers at concrete inputs.
use hyperlux_chain.Prelude.{◌≡◌, ◌≢◌, ◌↔◌, none, some, Option, List, [], ◌∷◌, length, arith}
use hyperlux_chain.Prelude.Int.{pos}
use hyperlux_chain.Prelude.Str.{codes}
use hyperlux_chain.Ledger.Types.{State, Block}
use hyperlux_chain.Ledger.Block.{genesis, add_block_with_txs, last_hash}
use hyperlux_chain.Ledger.Block.Chain.{IsChain, IsLinkedFrom, add_block_with_txs-IsChain}
use hyperlux_chain.Network.MiniBlock.{MiniBlock, verify_mini_block}
use hyperlux_chain.Network.Gossip.{receive_blocks, receive_mini_blocks}
use hyperlux_chain.Network.Gossip.Unchecked.{
  decoded, receive_blocks-IsChain, IsChecked, receive_mini_blocks-IsChecked,
}
use hyperlux_chain.Tests.Setup.{toy, alice, bob, pay, ledger}
use hyperlux_chain.Tests.Restarts.{made, made-verified}

abbrev grown : State
grown =
    (add_block_with_txs toy (pos 7) (pos 8) (record { address = bob; stake = pos 4 })
      (pay alice bob (pos 1) (pos 4) ∷ []) ledger).1

abbrev foreign : List (Option Block)
foreign = none ∷ some (genesis toy (pos 5)) ∷ []

receive_blocks-IsChain_example :
    IsChain toy (receive_blocks foreign grown).blockchain
    ↔ IsLinkedFrom toy
        (length grown.blockchain)
        (last_hash (codes "0") grown.blockchain)
        (decoded foreign)
receive_blocks-IsChain_example =
    receive_blocks-IsChain toy foreign grown
      (add_block_with_txs-IsChain toy (pos 7) (pos 8) (record { address = bob; stake = pos 4 })
        (pay alice bob (pos 1) (pos 4) ∷ []) ledger tt).0

made-handled : verify_mini_block toy made ≢ none
made-handled e = absurd (cc (e, made-verified))

receive_mini_blocks-IsChecked_example :
    (bus : List MiniBlock) × (receive_mini_blocks toy (none ∷ some made ∷ []) [] ≡ some bus)
    × IsChecked toy bus
receive_mini_blocks-IsChecked_example =
    receive_mini_blocks-IsChecked toy (none ∷ some made ∷ []) [] (tt, (made-handled, tt))
      (record { verified = tt; small = omega arith })
