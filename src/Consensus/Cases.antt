-- ===== src/Consensus/Cases.antt =====
-- The ways in which a call of CommitBlock of consensus/consensus.go can end.
use mathlib.Core.Option
use hyperlux_chain.Prelude.{
  ◌*◌, ◌<◌, ◌≡◌, refl, inl, inr, Bool, true, false, ◌||◌, Option, some, none, List, [], ◌∷◌, length,
  Bool-cases, Option-cases, is_empty,
}
use hyperlux_chain.Prelude.Int.{pos}
use hyperlux_chain.Prelude.Str.{Str, codes}
use hyperlux_chain.Prelude.Dict.{lookup}
use hyperlux_chain.Primitives.{Primitives, SliceSort}
use hyperlux_chain.Ledger.Types.{State, Transaction, ValidatorDef, Wallet}
use hyperlux_chain.Ledger.Mempool.{mempool_snapshot, remove_committed_from_mempool}
use hyperlux_chain.Ledger.Batch.{nonce_less, process_tx_list_parallel}
use hyperlux_chain.Ledger.Block.{add_block_with_txs}
use hyperlux_chain.Ledger.ApplySlash.{slash_validator}
use hyperlux_chain.Consensus.{
  Node, Readings, next_poh, print_metrics, bft_vote, append_block, vote_and_commit, propose,
  commit_block, select_validator_vrf_eligible,
}
use hyperlux_chain.Consensus.Voting.{barred, bft_vote-quorum}

-- The hash of the slot that the call opens.
abbrev pub slot_hash : Primitives → Readings → Node → Str
slot_hash c r n = (next_poh c r.poh_init r.poh_next (codes "block-commit") n).0

-- The validator that the slot's hash chooses.
abbrev pub proposer : Primitives → Readings → Str → State → ValidatorDef
proposer c r hash s = select_validator_vrf_eligible c r.choosing hash s

-- Less than a third of the validators is barred from voting.
abbrev pub HasQuorum : Readings → State → Type 0
HasQuorum r s = 3 * barred r.voting 0 s s.validators < length s.validators

-- Why a call does nothing to the ledger: another call runs, no transaction waits, there is no
-- validator, or the proposer's wallet is not in memory.
pub data IsIdle (c : Primitives) (r : Readings) (busy : Bool) (hash : Str) (s : State)
    : Type 0 where
  overlaps : busy ≡ true → IsIdle c r busy hash s
  nothing_waits : s.mempool ≡ [] → IsIdle c r busy hash s
  no_validators : s.validators ≡ [] → IsIdle c r busy hash s
  no_wallet :
      lookup (proposer c r hash s).address s.validator_wallets ≡ none → IsIdle c r busy hash s

empty_list : {A : Type 0} (xs : List A) → is_empty xs ≡ true → xs ≡ []
empty_list [] e = refl
empty_list (x ∷ xs) e = cc

module _ (c : Primitives) (sorter : SliceSort nonce_less) where
  -- How a call can end for the ledger, by the guard, the slot's hash and the ledger before.
  pub data Outcome (r : Readings) (arrivals : List Str) (busy : Bool) (hash : Str) (s : State)
      : Option State → Type 0 where
    idle : IsIdle c r busy hash s → Outcome r arrivals busy hash s (some s)
    -- The vote fails, and the proposer is slashed.
    rejected :
        ¬ HasQuorum r s
        → Outcome r arrivals busy hash s
            (some (slash_validator r.slashing (proposer c r hash s).address (pos 10) s))
    -- A worker panics.
    panicked :
        process_tx_list_parallel c sorter arrivals s.mempool s ≡ none
        → Outcome r arrivals busy hash s none
    -- The proposer's block is appended, and what it holds leaves the mempool.
    appended :
        (w : Wallet) (final : List Transaction) (s1 : State)
        → HasQuorum r s
        → lookup (proposer c r hash s).address s.validator_wallets ≡ some w
        → process_tx_list_parallel c sorter arrivals s.mempool s ≡ some (final, s1)
        → Outcome r arrivals busy hash s (
            some (
              remove_committed_from_mempool c final
                (add_block_with_txs c r.genesis_made r.block_made
                  (proposer c r hash s)
                  final
                  s1).1))

  append_block-ledger :
      (r : Readings) (v : ValidatorDef) (n : Node) (final : List Transaction) (s1 : State)
      → (append_block c sorter r v n (final, s1)).ledger
        ≡ remove_committed_from_mempool c final
            (add_block_with_txs c r.genesis_made r.block_made v final s1).1
  unfolding append_block print_metrics
  append_block-ledger r v n final s1 = elim (Option-cases n.last_block_wall) [
    | inl e ↦ rw e
    | inr (before, e) ↦ rw e
  ]

  module _ (r : Readings) (arrivals : List Str) (busy : Bool) (hash : Str) where
    vote_and_commit-Outcome :
        (w : Wallet) (n : Node)
        → lookup (proposer c r hash n.ledger).address n.ledger.validator_wallets ≡ some w
        → Outcome r arrivals busy hash n.ledger (
            Option.map
              (λ (m : Node). m.ledger)
              (vote_and_commit c sorter r arrivals hash (proposer c r hash n.ledger) n))
    unfolding vote_and_commit mempool_snapshot
    vote_and_commit-Outcome w n e =
        let quorum = bft_vote-quorum r.voting hash n.ledger.validators n.ledger in
        elim (Bool-cases (bft_vote r.voting hash n.ledger.validators n.ledger)) [
          | inr no' ↦ rw no' (rejected (λ h. cc (no', quorum.1 h)))
          | inl vote ↦
              rw vote
                (elim (Option-cases
                  (process_tx_list_parallel c sorter arrivals n.ledger.mempool n.ledger)) [
                    | inl stop ↦ rw stop (panicked stop)
                    | inr ((final, s1), ran) ↦
                        rw (ran, append_block-ledger r (proposer c r hash n.ledger) n final s1)
                          (appended w final s1 (quorum.0 vote) e ran)
                  ])
        ]

    propose-Outcome :
        (n : Node)
        → Outcome r arrivals busy hash n.ledger
            (Option.map (λ (m : Node). m.ledger) (propose c sorter r arrivals (hash, n)))
    unfolding propose
    propose-Outcome n = elim (Bool-cases (is_empty n.ledger.validators)) [
      | inl e ↦ rw e (idle (no_validators (empty_list n.ledger.validators e)))
      | inr e ↦ rw e (
          let v = proposer c r hash n.ledger in
          elim (Option-cases (lookup v.address n.ledger.validator_wallets)) [
            | inl missing ↦ rw missing (idle (no_wallet missing))
            | inr (w, found) ↦ rw found (vote_and_commit-Outcome w n found)
          ])
    ]

  IsIdle-guard :
      (r : Readings) (busy : Bool) (hash : Str) (s : State)
      → (busy || is_empty s.mempool) ≡ true
      → IsIdle c r busy hash s
  IsIdle-guard r true hash s e = overlaps refl
  IsIdle-guard r false hash s e = nothing_waits (empty_list s.mempool e)

  -- Every call of CommitBlock ends in one of these ways.
  pub commit_block-Outcome :
      (r : Readings) (arrivals : List Str) (n : Node)
      → Outcome r arrivals n.committing
          (slot_hash c r n)
          n.ledger
          (Option.map (λ (m : Node). m.ledger) (commit_block c sorter r arrivals n))
  unfolding commit_block next_poh
  commit_block-Outcome r arrivals n =
      elim (Bool-cases (n.committing || is_empty n.ledger.mempool)) [
        | inl e ↦ rw e (idle (IsIdle-guard r n.committing (slot_hash c r n) n.ledger e))
        | inr e ↦ rw e (
            let (hash, n') = next_poh c r.poh_init r.poh_next (codes "block-commit") n in
            propose-Outcome r arrivals n.committing hash n')
      ]
