-- ===== src/Network/MiniBlock/Signed.antt =====
-- What the signature of a mini-block covers.

use mathlib.Core.Option.{some-injective}
use hyperlux_chain.Prelude.{◌≡◌, refl, sym, ap, subst, ◌∙◌, true, some, List, []}
use hyperlux_chain.Prelude.Int.{ℤ}
use hyperlux_chain.Prelude.Str.{Str}
use hyperlux_chain.Primitives.{Primitives, SignatureLaws}
use hyperlux_chain.Codec.{hex_encode, hex_decode-hex_encode}
use hyperlux_chain.Ledger.Types.{Transaction, Wallet}
use hyperlux_chain.Ledger.Block.{compute_merkle_root}
use hyperlux_chain.Ledger.Transaction.Signing.{IsKeyPair}
use hyperlux_chain.Network.MiniBlock.{MiniBlock, mini_header, sign_mini_block, verify_mini_block}

-- A mini-block with the public key of a private key and its signature.
abbrev sealed_by : Primitives → Str → MiniBlock → MiniBlock
sealed_by c key mb =
    let keyed : MiniBlock = record mb { pub_key = hex_encode (c.ed25519_public key) } in
    record keyed { signature = hex_encode (c.ed25519_sign key (c.sha256 (mini_header keyed))) }

module _ (c : Primitives) (laws : SignatureLaws c) where
  open laws use {sign-IsBytes, public-IsBytes, public-length, check-sign}

  verify-sealed_by :
      (key : Str) (mb : MiniBlock) → verify_mini_block c (sealed_by c key mb) ≡ some true
  unfolding verify_mini_block
  verify-sealed_by key mb =
      rw
        (hex_decode-hex_encode _ (public-IsBytes key), hex_decode-hex_encode _ (sign-IsBytes key _))
        (rw (public-length key) (ap some (check-sign key _)))

  -- What SignMiniBlock makes, apart from the key and the signature.
  abbrev unsealed : Str → ℤ → Str → List Transaction → MiniBlock
  unsealed node_id now slot txs = record {
    slot = slot;
    timestamp = now;
    tx_list = txs;
    merkle_root = compute_merkle_root c txs;
    producer_id = node_id;
    pub_key = [];
    signature = [];
  }

  sign_mini_block-sealed_by :
      (node_id : Str) (now : ℤ) (w : Wallet) (slot : Str) (txs : List Transaction)
      → IsKeyPair c w
      → sign_mini_block c node_id now w slot txs
        ≡ some (sealed_by c w.priv_ed (unsealed node_id now slot txs))
  unfolding sign_mini_block
  sign_mini_block-sealed_by node_id now w slot txs keys =
      rw (keys.priv-length, keys.pub_matches) refl

  -- A mini-block that SignMiniBlock makes for a wallet whose keys belong together is accepted by
  -- VerifyMiniBlock, and stays so when its transactions are replaced by any others, since the check
  -- does not compare them with the Merkle root.
  pub verify-sign_mini_block :
      (node_id : Str) (now : ℤ) (w : Wallet) (slot : Str) (txs us : List Transaction)
      (mb : MiniBlock)
      → IsKeyPair c w
      → sign_mini_block c node_id now w slot txs ≡ some mb
      → (verify_mini_block c mb ≡ some true)
        × (verify_mini_block c (record mb { tx_list = us }) ≡ some true)
  unfolding verify_mini_block
  verify-sign_mini_block node_id now w slot txs us mb keys e =
      let made : sealed_by c w.priv_ed (unsealed node_id now slot txs) ≡ mb =
        some-injective _ _ (sym (sign_mini_block-sealed_by node_id now w slot txs keys) ∙ e) in
      (
        subst (λ b. verify_mini_block c b ≡ some true) made
            (verify-sealed_by w.priv_ed (unsealed node_id now slot txs)),
        subst (λ (b : MiniBlock). verify_mini_block c (record b { tx_list = us }) ≡ some true) made
            (verify-sealed_by w.priv_ed (unsealed node_id now slot txs)),
      )
