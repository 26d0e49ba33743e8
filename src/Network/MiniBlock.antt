-- ===== src/Network/MiniBlock.antt =====
-- The mini-blocks of network/messages.go: signing, checking, publishing, collecting. A signature or
-- a check that panics is `none`.
pub mod Signed
use mathlib.Core.Option
use hyperlux_chain.Prelude.{
  ◌≡◌, Bool, true, false, ◌&&◌, Option, none, some, List, [], ◌∷◌, ◌++◌, length, ite, ltb,
  if◌then◌else◌,
}
use hyperlux_chain.Prelude.Int.{ℤ}
use hyperlux_chain.Prelude.Str.{Str, Str_discrete}
use hyperlux_chain.Primitives.{Primitives}
use hyperlux_chain.Codec.{show_ℤ, hex_encode, hex_decode}
use hyperlux_chain.Ledger.Types.{Transaction, Wallet}
use hyperlux_chain.Ledger.Transaction.{sign_ed, ed25519_verify}
use hyperlux_chain.Ledger.Block.{compute_merkle_root}

pub record MiniBlock : Type 0 where
  pub slot : Str
  pub timestamp : ℤ
  pub tx_list : List Transaction
  pub merkle_root : Str
  pub producer_id : Str
  pub pub_key : Str
  pub signature : Str

-- `fmt.Sprintf("%s|%d|%s|%s|%s", …)`
unfoldable pub mini_header : MiniBlock → Str
mini_header mb =
    mb.slot
    ++ (b'|'
        ∷ (show_ℤ mb.timestamp
            ++ (b'|' ∷ (mb.merkle_root ++ (b'|' ∷ (mb.producer_id ++ (b'|' ∷ mb.pub_key)))))))

-- The node's own id and the clock reading are the second and the third argument.
unfoldable pub sign_mini_block :
    Primitives → Str → ℤ → Wallet → Str → List Transaction → Option MiniBlock
unfolding sign_ed mini_header
sign_mini_block c node_id now w slot txs =
    let mb : MiniBlock = record {
      slot = slot;
      timestamp = now;
      tx_list = txs;
      merkle_root = compute_merkle_root c txs;
      producer_id = node_id;
      pub_key = hex_encode w.pub_ed;
      signature = [];
    } in
    Option.map (λ (sig : Str). record mb { signature = hex_encode sig })
      (sign_ed c w (c.sha256 (mini_header mb)))

unfoldable pub verify_mini_block : Primitives → MiniBlock → Option Bool
unfolding ed25519_verify mini_header
verify_mini_block c mb =
    let (pub_bytes, fine1) = hex_decode mb.pub_key in
    let (sig_bytes, fine2) = hex_decode mb.signature in
    if fine1 && fine2
    then ed25519_verify c pub_bytes (c.sha256 (mini_header mb)) sig_bytes
    else some false

-- A send to the bus, which holds 8192 mini-blocks and drops what comes when it is full.
unfoldable pub publish_mini_block : MiniBlock → List MiniBlock → List MiniBlock
publish_mini_block mb bus = if ltb (length bus) 8192 then bus ++ (mb ∷ []) else bus

-- What is kept of the mini-blocks that are received before the deadline.
unfoldable pub collect_mini_blocks : Primitives → Str → List MiniBlock → Option (List MiniBlock)
collect_mini_blocks c slot [] = some []
collect_mini_blocks c slot (mb ∷ mbs) =
    let rest = collect_mini_blocks c slot mbs in
    ite (Str_discrete mb.slot slot)
      (elim (verify_mini_block c mb) [
        | none ↦ none
        | some false ↦ rest
        | some true ↦ Option.map (◌∷◌ mb) rest
      ])
      rest
