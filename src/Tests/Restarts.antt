-- ===== src/Tests/Restarts.antt =====
-- The theorems about restarts and mini-blocks at concrete inputs.
use hyperlux_chain.Prelude.{◌≡◌, ◌≢◌, refl, ap, true, Option, none, some, [], ◌∷◌, length}
use hyperlux_chain.Prelude.Int.{pos}
use hyperlux_chain.Prelude.Str.{Str, codes}
use hyperlux_chain.Ledger.Types.{State, Wallet, Block}
use hyperlux_chain.Ledger.Transaction.{sign_ed}
use hyperlux_chain.Ledger.Transaction.Signing.{IsKeyPair}
use hyperlux_chain.Ledger.Startup.{restart, reopen}
use hyperlux_chain.Consensus.Restarted.{restart_after_commit_block}
use hyperlux_chain.Network.MiniBlock.{MiniBlock, sign_mini_block, verify_mini_block}
use hyperlux_chain.Network.MiniBlock.Signed.{verify-sign_mini_block}
use hyperlux_chain.Tests.Setup.{toy, toy_laws, sorter, evaluation, alice, bob, pay, ledger, repeat}
use hyperlux_chain.Tests.Proposals.{node, readings, next_node, commits}

abbrev staked : State
staked = record ledger { validators = record { address = alice; stake = pos 900 } ∷ [] }

grown : next_node.ledger.blockchain ≢ []
grown e = absurd (cc (commits.1, ap (length {A = Block}) e))

restart_after_commit_block_example :
    ((restart toy (pos 9) next_node.ledger).mempool ≡ pay alice bob (pos 10) (pos 4) ∷ [])
    × ((reopen next_node.ledger).mempool ≡ pay alice bob (pos 10) (pos 4) ∷ [])
restart_after_commit_block_example =
    restart_after_commit_block toy sorter readings (alice ∷ []) node next_node (pos 9) commits.0
      grown

abbrev wallet : Wallet
wallet = record {
  address_ed = alice;
  pub_ed = repeat 32 5;
  priv_ed = repeat 64 5;
  address_sec = [];
  pub_sec = [];
  priv_sec = [];
}

keys : IsKeyPair toy wallet
keys = record { priv-length = refl; pub_matches = refl }

abbrev mini_or : Option MiniBlock → MiniBlock
mini_or none = record {
  slot = [];
  timestamp = pos 0;
  tx_list = [];
  merkle_root = [];
  producer_id = [];
  pub_key = [];
  signature = [];
}
mini_or (some mb) = mb

abbrev pub made : MiniBlock
made = mini_or (
    sign_mini_block toy (codes "node-1") (pos 7) wallet (codes "s")
      (pay alice bob (pos 1) (pos 4) ∷ []))

pub made-verified : verify_mini_block toy made ≡ some true
unfolding verify_mini_block sign_mini_block sign_ed evaluation
made-verified = refl

signs :
    sign_mini_block toy
      (codes "node-1")
      (pos 7)
      wallet
      (codes "s")
      (pay alice bob (pos 1) (pos 4) ∷ [])
    ≡ some made
unfolding sign_mini_block sign_ed evaluation
signs = refl

verify-sign_mini_block_example :
    (verify_mini_block toy made ≡ some true)
    × (verify_mini_block toy (record made { tx_list = pay bob alice (pos 9) (pos 1) ∷ [] })
        ≡ some true)
verify-sign_mini_block_example =
    verify-sign_mini_block toy toy_laws (codes "node-1") (pos 7) wallet (codes "s")
      (pay alice bob (pos 1) (pos 4) ∷ []) (pay bob alice (pos 9) (pos 1) ∷ []) made keys signs
