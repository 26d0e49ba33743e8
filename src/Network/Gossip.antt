-- ===== src/Network/Gossip.antt =====
-- The two loops of network/gossip.go, over the messages that arrive; a message whose JSON text does
-- not decode is `none`.
pub mod Unchecked
use hyperlux_chain.Prelude.{◌≡◌, Bool, true, false, Option, none, some, List, [], ◌∷◌, ◌++◌}
use hyperlux_chain.Primitives.{Primitives}
use hyperlux_chain.Ledger.Types.{State, Block}
use hyperlux_chain.Ledger.Storage.{save_blockchain}
use hyperlux_chain.Network.MiniBlock.{MiniBlock, verify_mini_block, publish_mini_block}

unfoldable pub receive_block : Option Block → State → State
unfolding save_blockchain
receive_block none s = s
receive_block (some b) s = save_blockchain (record s { blockchain = s.blockchain ++ (b ∷ []) })

unfoldable pub receive_blocks : List (Option Block) → State → State
unfolding receive_block
receive_blocks [] s = s
receive_blocks (m ∷ ms) s = receive_blocks ms (receive_block m s)

-- What is on the bus afterwards; a check that panics is `none`.
unfoldable pub receive_mini_block :
    Primitives → Option MiniBlock → List MiniBlock → Option (List MiniBlock)
unfolding publish_mini_block
receive_mini_block c none bus = some bus
receive_mini_block c (some mb) bus = elim (verify_mini_block c mb) [
  | none ↦ none
  | some false ↦ some bus
  | some true ↦ some (publish_mini_block mb bus)
]

unfoldable pub receive_mini_blocks :
    Primitives → List (Option MiniBlock) → List MiniBlock → Option (List MiniBlock)
unfolding receive_mini_block
receive_mini_blocks c [] bus = some bus
receive_mini_blocks c (m ∷ ms) bus = elim (receive_mini_block c m bus) [
  | none ↦ none
  | some bus' ↦ receive_mini_blocks c ms bus'
]
