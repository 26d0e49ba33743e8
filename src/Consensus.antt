-- ===== src/Consensus.antt =====
-- consensus/consensus.go: proof of history, the choice of the proposer, the vote, and CommitBlock.
-- The package's global variables are a record around the ledger's state. A call of CommitBlock is
-- one step; the clock readings and the order in which workers finish are its arguments.
pub mod Reachable
pub mod Choice
pub mod Voting
pub mod Cases
pub mod Commit
pub mod Restarted
use mathlib.Core.Option
use hyperlux_chain.Prelude.{
  ℕ, zero, suc, ◌+◌, ◌*◌, ◌/◌, ◌%◌, Bool, true, false, not, ◌||◌, Option, none, some, List, [], ◌∷◌,
  ◌++◌, map, length, is_empty, if◌then◌else◌, ltb, leb, ◌==◌,
}
use hyperlux_chain.Prelude.Int.{ℤ, pos, pos_part, neg_part, ◌+ℤ◌, ◌-ℤ◌, ltb_ℤ, leb_ℤ}
use hyperlux_chain.Prelude.Word64.{add64}
use hyperlux_chain.Prelude.Str.{Str, codes}
use hyperlux_chain.Prelude.Dict.{lookup}
use hyperlux_chain.Primitives.{Primitives, SliceSort}
use hyperlux_chain.Codec.{show_ℤ, hex_encode}
use hyperlux_chain.Ledger.Types.{
  State, Block, Transaction, ValidatorDef, Wallet, scope_propose, scope_vote, scope_all,
}
use hyperlux_chain.Ledger.Mempool.{
  get_mempool_size, mempool_snapshot, remove_committed_from_mempool,
}
use hyperlux_chain.Ledger.Batch.{nonce_less, process_tx_list_parallel}
use hyperlux_chain.Ledger.Storage.{load_validators}
use hyperlux_chain.Ledger.Validators.{is_suspended}
use hyperlux_chain.Ledger.ApplySlash.{slash_validator}
use hyperlux_chain.Ledger.Block.{add_block_with_txs}

-- `last_tps` is kept as the two numbers whose quotient the source stores: transactions, and
-- nanoseconds.
pub record Node : Type 0 where
  pub ledger : State
  pub poh_chain : List Str
  pub poh_slot : ℤ
  pub delegates : List Str
  pub last_block_wall : Option ℤ
  pub last_tps : ℕ × ℤ
  pub committing : Bool

-- What one call of CommitBlock reads from the clock, in nanoseconds. The calls of IsSuspended read
-- it one after the other: the n-th reading is at n.
pub record Readings : Type 0 where
  pub poh_init : ℤ
  pub poh_next : ℤ
  pub choosing : ℕ → ℤ
  pub voting : ℕ → ℤ
  pub slashing : ℤ
  pub genesis_made : ℤ
  pub block_made : ℤ
  pub measured : ℤ

-- Proof of history.
unfoldable pub generate_poh : Primitives → Str → Str → ℤ → Str
generate_poh c prev_hash data' timestamp =
    hex_encode (c.sha256 (prev_hash ++ (b'|' ∷ (data' ++ (b'|' ∷ show_ℤ timestamp)))))

unfoldable pub init_poh : Primitives → ℤ → List Str → List Str
init_poh c now [] = generate_poh c (codes "genesis") (codes "init") now ∷ []
init_poh c now (h ∷ hs) = h ∷ hs

abbrev pub last_slot : Str → List Str → Str
last_slot prev [] = prev
last_slot prev (h ∷ hs) = last_slot h hs

unfoldable pub next_poh : Primitives → ℤ → ℤ → Str → Node → Str × Node
unfolding generate_poh init_poh
next_poh c now0 now1 data' n =
    let chain = init_poh c now0 n.poh_chain in
    let hash = generate_poh c (last_slot [] chain) data' now1 in
    (hash, record n { poh_chain = chain ++ (hash ∷ []); poh_slot = add64 n.poh_slot (pos 1) })

-- `new(big.Int).SetBytes`: most significant byte first.
unfoldable pub big_endian : ℕ → Str → ℕ
big_endian acc [] = acc
big_endian acc (b ∷ bs) = big_endian (acc * 256 + b) bs

-- `totalStake`, a big integer, so exact.
unfoldable pub total_stake : List ValidatorDef → ℤ → ℤ
total_stake [] acc = acc
total_stake (v ∷ vs) acc = total_stake vs (acc +ℤ v.stake)

-- `Mod` of a number that is not negative: the result is not negative either.
unfoldable pub big_mod : ℕ → ℤ → ℕ
big_mod n t = n % (pos_part t + neg_part t)

-- The first validator at which the stakes summed so far exceed `r`.
unfoldable pub pick_at : ℤ → List ValidatorDef → ℤ → Option ValidatorDef
pick_at r [] acc = none
pick_at r (v ∷ vs) acc =
    let acc' = acc +ℤ v.stake in
    let rest = pick_at r vs acc' in if ltb_ℤ r acc' then some v else rest

abbrev pub no_validator : ValidatorDef
no_validator = record { address = []; stake = pos 0 }

-- `Validators[0]` of a list that is not empty.
abbrev pub first_of : List ValidatorDef → ValidatorDef
first_of [] = no_validator
first_of (v ∷ vs) = v

abbrev pub or_first : List ValidatorDef → Option ValidatorDef → ValidatorDef
or_first vs (some v) = v
or_first vs none = first_of vs

unfoldable pub select_validator_vrf : Primitives → Str → State → ValidatorDef
unfolding big_endian total_stake big_mod pick_at
select_validator_vrf c seed s =
    let rnd = big_endian 0 (c.sha256 seed) in
    let total = total_stake s.validators (pos 0) in
    if pos_part total == neg_part total
    then no_validator
    else or_first s.validators (pick_at (pos (big_mod rnd total)) s.validators (pos 0))

-- The first validator that is not barred from proposing, or the pick. `n` readings were made.
unfoldable pub first_eligible :
    (ℕ → ℤ) → ℕ → State → ValidatorDef → List ValidatorDef → ValidatorDef
first_eligible clock n s pick [] = pick
first_eligible clock n s pick (v ∷ vs) =
    let rest = first_eligible clock (suc n) s pick vs in
    if is_suspended (clock n) v.address scope_propose s then rest else v

unfoldable pub select_validator_vrf_eligible : Primitives → (ℕ → ℤ) → Str → State → ValidatorDef
unfolding first_eligible
select_validator_vrf_eligible c clock seed s =
    let pick = select_validator_vrf c seed s in
    if is_suspended (clock 0) pick.address scope_propose s
    then first_eligible clock 1 s pick s.validators
    else pick

-- `validateBlock`
abbrev pub validate_block : Str → Bool
validate_block _ = true

-- The votes for the block among the validators from the n-th on. Two readings for each.
unfoldable pub yes_count : (ℕ → ℤ) → ℕ → Str → State → List ValidatorDef → ℕ
yes_count clock n hash s [] = 0
yes_count clock n hash s (v ∷ vs) =
    let rest = yes_count clock (n + 2) hash s vs in
    if is_suspended (clock n) v.address scope_vote s
      || is_suspended (clock (n + 1)) v.address scope_all s
    then rest
    else if validate_block hash
    then suc rest
    else rest

unfoldable pub bft_vote : (ℕ → ℤ) → Str → List ValidatorDef → State → Bool
unfolding yes_count
bft_vote clock hash vs s =
    let threshold = length vs * 2 / 3 + 1 in leb threshold (yes_count clock 0 hash s vs)

-- `printMetrics`, without the printing. 1000 nanoseconds are its 1e-6 seconds.
unfoldable pub print_metrics : ℤ → Block → Node → Node
print_metrics now b n = elim n.last_block_wall [
  | none ↦ record n { last_block_wall = some now }
  | some before ↦
      let dt = now -ℤ before in
      record n {
        last_tps = (length b.transactions, if leb_ℤ dt (pos 0) then pos 1000 else dt);
        last_block_wall = some now;
      }
]

module _ (c : Primitives) (sorter : SliceSort nonce_less) where
  -- From the accepted transactions on.
  unfoldable pub append_block : Readings → ValidatorDef → Node → List Transaction × State → Node
  unfolding print_metrics
  append_block r validator n (valid, s) =
      let (b, s1) = add_block_with_txs c r.genesis_made r.block_made validator valid s in
      print_metrics r.measured b (record n { ledger = remove_committed_from_mempool c valid s1 })

  -- From the vote on.
  unfoldable pub vote_and_commit : Readings → List Str → Str → ValidatorDef → Node → Option Node
  unfolding bft_vote append_block
  vote_and_commit r arrivals slot_hash validator n =
      let snap = mempool_snapshot n.ledger in
      if not (bft_vote r.voting slot_hash n.ledger.validators n.ledger)
      then some
          (record n { ledger = slash_validator r.slashing validator.address (pos 10) n.ledger })
      else Option.map (append_block r validator n)
          (process_tx_list_parallel c sorter arrivals snap n.ledger)

  -- From the slot's hash on.
  unfoldable pub propose : Readings → List Str → Str × Node → Option Node
  unfolding select_validator_vrf_eligible vote_and_commit
  propose r arrivals (slot_hash, n) =
      let validator = select_validator_vrf_eligible c r.choosing slot_hash n.ledger in
      if is_empty n.ledger.validators
      then some n
      else elim (lookup validator.address n.ledger.validator_wallets) [
        | none ↦ some n
        | some w ↦ vote_and_commit r arrivals slot_hash validator n
      ]

  -- The guard is taken at the start and given back at the end, also when nothing was done.
  unfoldable pub commit_block : Readings → List Str → Node → Option Node
  unfolding propose next_poh
  commit_block r arrivals n =
      if n.committing || is_empty n.ledger.mempool
      then some n
      else propose r arrivals (next_poh c r.poh_init r.poh_next (codes "block-commit") n)

abbrev pub stake_more : ValidatorDef → ValidatorDef → Bool
stake_more v w = ltb_ℤ w.stake v.stake

abbrev pub take_addresses : ℕ → List ValidatorDef → List Str
take_addresses zero vs = []
take_addresses (suc n) [] = []
take_addresses (suc n) (v ∷ vs) = v.address ∷ take_addresses n vs

-- `initDPoS`. Here the validators are read from their file and put in the order of their stakes.
unfoldable pub init_dpos : SliceSort stake_more → Node → Node
unfolding load_validators
init_dpos sorter n =
    let loaded = load_validators n.ledger in
    let sorted = sorter.sort loaded.validators in
    if is_empty loaded.validators then record n { ledger = loaded } else record n {
      ledger = record loaded { validators = sorted };
      delegates = take_addresses 5 sorted;
    }
