-- ===== src/Tests/Nodes.antt =====
-- The theorem about the states of a node at a concrete run.
use hyperlux_chain.Prelude.{◌≡◌, refl, subst, Option, none, some, List, [], ◌∷◌, length}
use hyperlux_chain.Prelude.Int.{pos}
use hyperlux_chain.Ledger.Types.{State, empty_state, Transaction, ValidatorDef}
use hyperlux_chain.Ledger.Transaction.{validate_and_add_to_mempool, hash_transaction}
use hyperlux_chain.Ledger.Startup.{restart, airdrop, init_ledger}
use hyperlux_chain.Ledger.ValidatorFiles.{
  fix_validators, repair_validators, generate_validators, write_entry, ext, str_less, load_entry,
  load_wallets,
}
use hyperlux_chain.Ledger.Frame.{chains}
use hyperlux_chain.Consensus.{
  Node, commit_block, bft_vote, select_validator_vrf, select_validator_vrf_eligible, pick_at,
  append_block, vote_and_commit, propose, next_poh, generate_poh, first_eligible, yes_count,
  big_mod, big_endian, total_stake,
}
use hyperlux_chain.Consensus.Reachable.{
  Reachable, first, then, committed, submitted, airdropped, validators_fixed, restarted, IsSound,
  Reachable-IsSound,
}
use hyperlux_chain.Ledger.Mempool.{remove_committed_from_mempool, keep_others}
use hyperlux_chain.Ledger.Storage.{save_all_data}
use hyperlux_chain.Ledger.Validators.{is_suspended, unix}
use hyperlux_chain.Ledger.Block.{
  genesis, add_block_with_txs, compute_merkle_root, leaf, next_level, merkle_loop,
}
use hyperlux_chain.Tests.Setup.{toy, sorter, evaluation, alice, bob, pay}
use hyperlux_chain.Tests.Wallets.{keys, wallet, put}
use hyperlux_chain.Tests.Folders.{by_name}
use hyperlux_chain.Tests.Proposals.{node, readings}

abbrev with : State → Node
with s = record node { ledger = s }

abbrev fresh_node : Node
fresh_node = with (restart toy (pos 1) empty_state)

abbrev staffed : Node
staffed = with (fix_validators keys by_name (wallet ∷ []) [] fresh_node.ledger).1

abbrev rich_node : Node
rich_node = with (airdrop alice (pos 1000) staffed.ledger)

abbrev first_tx : Transaction
first_tx = pay alice bob (pos 20) (pos 1)

abbrev waiting_node : Node
waiting_node = with (validate_and_add_to_mempool toy first_tx rich_node.ledger).1

abbrev alone : List ValidatorDef
alone = record { address = alice; stake = pos 100000 } ∷ []

-- The same ledger, written out.
abbrev ready : State
ready = record {
  balances = (alice, pos 1000) ∷ [];
  nonce_table = [];
  mempool = first_tx ∷ [];
  treasury_balance = pos 0;
  burned_supply = pos 0;
  validator_status = [];
  validators = alone;
  validator_wallets = (alice, wallet) ∷ [];
  blockchain = genesis toy (pos 1) ∷ [];
  disk = record {
    saved_balances = some ((alice, pos 1000) ∷ []);
    saved_blockchain = some (genesis toy (pos 1) ∷ []);
    saved_mempool = none;
    saved_nonce_table = none;
    saved_validators = some alone;
  };
}

waiting_ready : waiting_node.ledger ≡ ready
unfolding validate_and_add_to_mempool airdrop fix_validators init_ledger by_name put
    repair_validators generate_validators write_entry ext str_less load_entry load_wallets
    evaluation
waiting_ready = refl

abbrev node_or : Option Node → Node
node_or none = node
node_or (some n) = n

abbrev grown_node : Node
grown_node = node_or (commit_block toy sorter readings (alice ∷ []) (with ready))

makes_block :
    (commit_block toy sorter readings (alice ∷ []) (with ready) ≡ some grown_node)
    × (length grown_node.ledger.blockchain ≡ 2)
unfolding commit_block propose vote_and_commit append_block next_poh generate_poh
    select_validator_vrf_eligible select_validator_vrf first_eligible bft_vote yes_count pick_at
    big_mod big_endian total_stake is_suspended add_block_with_txs compute_merkle_root leaf
    next_level merkle_loop hash_transaction save_all_data remove_committed_from_mempool keep_others
    unix evaluation
makes_block = (refl, refl)

runs : Reachable toy sorter keys by_name (with (restart toy (pos 9) grown_node.ledger))
runs =
    let joined : Reachable toy sorter keys by_name waiting_node =
      then
        (then (then (first (pos 1) node) (validators_fixed (wallet ∷ []) []))
          (airdropped alice (pos 1000)))
        (submitted first_tx) in
    then
      (then (subst (λ s. Reachable toy sorter keys by_name (with s)) waiting_ready joined)
        (committed readings (alice ∷ []) makes_block.0))
      (restarted (pos 9) node)

Reachable-IsSound_example : IsSound toy (chains (restart toy (pos 9) grown_node.ledger))
Reachable-IsSound_example =
    Reachable-IsSound toy sorter keys by_name (with (restart toy (pos 9) grown_node.ledger)) runs
