-- ===== src/Tests/Proposals.antt =====
-- The theorems about the consensus at concrete inputs.
use mathlib.Core.List.{Memᴰ}
use mathlib.Core.List.Permᴰ
use hyperlux_chain.Prelude.{
  ◌*◌, ◌<◌, ◌^◌, ◌≡◌, ◌↔◌, refl, true, false, Option, some, none, List, [], ◌∷◌, All, length, arith,
}
use hyperlux_chain.Prelude.Int.{pos, ◌+ℤ◌, ◌≤ℤ◌, ◌<ℤ◌, int_laws}
use hyperlux_chain.Prelude.Str.{codes}
use hyperlux_chain.Prelude.Dict.{total}
use hyperlux_chain.Ledger.Types.{Transaction, State, ValidatorDef, Wallet, scope_propose}
use hyperlux_chain.Ledger.Mempool.{remove_committed_from_mempool, keep_others}
use hyperlux_chain.Ledger.Transaction.{hash_transaction}
use hyperlux_chain.Ledger.Storage.{save_all_data}
use hyperlux_chain.Ledger.Batch.{IsArrivalOrder}
use hyperlux_chain.Ledger.Batch.Conservation.{IsPlain, IsSound}
use hyperlux_chain.Ledger.Validators.{is_suspended, unix}
use hyperlux_chain.Ledger.Block.{
  add_block_with_txs, compute_merkle_root, leaf, next_level, merkle_loop,
}
use hyperlux_chain.Ledger.Block.Chain.{IsChain}
use hyperlux_chain.Consensus.{
  Node, Readings, commit_block, bft_vote, select_validator_vrf, select_validator_vrf_eligible,
  pick_at, append_block, vote_and_commit, propose, next_poh, generate_poh, first_eligible,
  yes_count, big_mod, big_endian, total_stake,
}
use hyperlux_chain.Consensus.Choice.{
  draw, HasStake, select_validator_vrf-interval, select_eligible-IsFree,
}
use hyperlux_chain.Ledger.Slashing.Single.{stakes}
use hyperlux_chain.Consensus.Voting.{barred, bft_vote-quorum}
use hyperlux_chain.Consensus.Commit.{Supplied, commit_block-IsChain, commit_block-Supplied}
use hyperlux_chain.Consensus.Cases.{slot_hash}
use hyperlux_chain.Tests.Setup.{toy, sorter, evaluation, alice, bob, pay, ledger}

abbrev purse : Wallet
purse = record {
  address_ed = bob;
  pub_ed = [];
  priv_ed = [];
  address_sec = [];
  pub_sec = [];
  priv_sec = [];
}

abbrev rich : ValidatorDef
rich = record { address = alice; stake = pos 3 }

abbrev poor : ValidatorDef
poor = record { address = bob; stake = pos 2 }

abbrev waiting : List Transaction
waiting = pay alice bob (pos 10) (pos 4) ∷ []

-- The first validator is suspended, and only the second has a wallet.
abbrev world : State
world = record ledger {
  mempool = waiting;
  validators = rich ∷ poor ∷ [];
  validator_wallets = (bob, purse) ∷ [];
  validator_status =
      (alice, record { suspended_until = pos 100; suspend_scope = scope_propose }) ∷ [];
}

abbrev pub node : Node
node = record {
  ledger = world;
  poh_chain = [];
  poh_slot = pos 0;
  delegates = [];
  last_block_wall = none;
  last_tps = (0, pos 0);
  committing = false;
}

abbrev pub readings : Readings
readings = record {
  poh_init = pos 1;
  poh_next = pos 2;
  choosing = λ i. pos 3;
  voting = λ i. pos 4;
  slashing = pos 5;
  genesis_made = pos 6;
  block_made = pos 7;
  measured = pos 8;
}

abbrev node_or : Option Node → Node
node_or none = node
node_or (some n) = n

abbrev pub next_node : Node
next_node = node_or (commit_block toy sorter readings (alice ∷ []) node)

-- A block is made.
pub commits :
    (commit_block toy sorter readings (alice ∷ []) node ≡ some next_node)
    × (length next_node.ledger.blockchain ≡ 2)
    × (next_node.ledger.mempool ≡ [])
    × (next_node.ledger.balances ≡ (alice, pos 88) ∷ (bob, pos 27) ∷ [])
unfolding commit_block propose vote_and_commit append_block next_poh generate_poh
    select_validator_vrf_eligible select_validator_vrf first_eligible bft_vote yes_count pick_at
    big_mod big_endian total_stake is_suspended add_block_with_txs compute_merkle_root leaf
    next_level merkle_loop hash_transaction save_all_data remove_committed_from_mempool keep_others
    unix evaluation
commits = (refl, refl, refl, refl)

commit_block-IsChain_example : IsChain toy next_node.ledger.blockchain
commit_block-IsChain_example =
    commit_block-IsChain toy sorter readings (alice ∷ []) node next_node commits.0 tt

order : IsArrivalOrder waiting (alice ∷ [])
unfolding evaluation
order = Permᴰ.refl (alice ∷ [])

plain : All IsPlain waiting
plain = omega int_laws

sound : IsSound world.balances
unfolding evaluation
sound = omega arith

room : total world.balances +ℤ pos 5 <ℤ pos (2 ^ 63)
unfolding evaluation
room = omega arith

commit_block-Supplied_example :
    Supplied toy readings false (slot_hash toy readings node) world next_node.ledger
commit_block-Supplied_example =
    commit_block-Supplied toy sorter readings (alice ∷ []) node next_node commits.0 order plain
      sound room

bft_vote-quorum_example :
    (bft_vote (λ i. pos 4) (codes "hash") (rich ∷ poor ∷ []) world ≡ true)
    ↔ (3 * barred (λ i. pos 4) 0 world (rich ∷ poor ∷ []) < 2)
bft_vote-quorum_example = bft_vote-quorum (λ i. pos 4) (codes "hash") (rich ∷ poor ∷ []) world

-- The byte 4 leaves 4 modulo 5.
has_stake : All HasStake world.validators
has_stake = omega arith

low : stakes (rich ∷ []) ≤ℤ pos (draw toy (4 ∷ []) world.validators)
unfolding stakes big_endian evaluation
low = omega arith

high : pos (draw toy (4 ∷ []) world.validators) <ℤ stakes (rich ∷ []) +ℤ pos 2
unfolding stakes big_endian evaluation
high = omega arith

select_validator_vrf-interval_example : select_validator_vrf toy (4 ∷ []) world ≡ poor
select_validator_vrf-interval_example =
    select_validator_vrf-interval toy (4 ∷ []) world (rich ∷ []) poor [] refl has_stake low high

bob_is_free : is_suspended (pos 9) bob scope_propose world ≡ false
unfolding is_suspended unix evaluation
bob_is_free = refl

select_eligible-IsFree_example :
    is_suspended
      (pos 9)
      (select_validator_vrf_eligible toy (λ i. pos 9) (2 ∷ []) world).address
      scope_propose
      world
    ≡ false
select_eligible-IsFree_example =
    select_eligible-IsFree toy (pos 9) (2 ∷ []) world poor (Memᴰ.tail (Memᴰ.head refl)) bob_is_free
