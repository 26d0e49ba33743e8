-- ===== src/Ledger/Frame.antt =====
-- Which parts of the state the operations of the package ledger leave alone.
use mathlib.Core.Option.{some-injective}
use hyperlux_chain.Prelude.{
  ◌≡◌, refl, sym, ap, ◌∙◌, inl, inr, Option, some, List, [], ◌∷◌, arith, Bool-cases,
}
use hyperlux_chain.Prelude.Int.{ℤ, pos, leb_ℤ}
use hyperlux_chain.Prelude.Str.{Str}
use hyperlux_chain.Prelude.Float64.{Float64}
use hyperlux_chain.Primitives.{Primitives, SliceSort}
use hyperlux_chain.Ledger.Types.{State, Transaction, Block}
use hyperlux_chain.Ledger.Storage.{save_validators}
use hyperlux_chain.Ledger.Mempool.{remove_committed_from_mempool}
use hyperlux_chain.Ledger.Batch.{nonce_less, process_tx_list_parallel, commit, commit_tx}
use hyperlux_chain.Ledger.Batch.Arrival.{process-gather}
use hyperlux_chain.Ledger.Validators.{
  SlashParams, SlashKind, slash_downtime_kind, slash_safety_kind, suspend_validator, one,
  get_or_create_runtime,
}
use hyperlux_chain.Ledger.Slashing.{slash_single, pay_reporter, redistribute, distribute_slashed}
use hyperlux_chain.Ledger.ApplySlash.{
  slash_amount, distribute_by_kind, suspend_after, apply_slash, slash_safety_fault, slash_downtime,
  slash_validator,
}

pub commit-blockchain :
    (txs : List Transaction) (s : State) → (commit txs s).blockchain ≡ s.blockchain
unfolding commit commit_tx
commit-blockchain [] s = refl
commit-blockchain (tx ∷ txs) s = commit-blockchain txs (commit_tx tx s)

pub commit-mempool : (txs : List Transaction) (s : State) → (commit txs s).mempool ≡ s.mempool
unfolding commit commit_tx
commit-mempool [] s = refl
commit-mempool (tx ∷ txs) s = commit-mempool txs (commit_tx tx s)

pub process-commit :
    (c : Primitives) (sorter : SliceSort nonce_less) (arrivals : List Str)
    (txs final : List Transaction) (s s' : State)
    → process_tx_list_parallel c sorter arrivals txs s ≡ some (final, s')
    → s' ≡ commit final s
unfolding process_tx_list_parallel commit
process-commit c sorter arrivals [] final s s' e =
    let q = some-injective _ _ e in sym (ap (λ p. p.1) q) ∙ ap (λ p. commit p.0 s) q
process-commit c sorter arrivals (tx ∷ txs) final s s' e =
    (process-gather c sorter tx txs arrivals s final s' e).1

module _ (c : Primitives) (committed : List Transaction) (s : State) where
  pub remove_committed-blockchain :
      (remove_committed_from_mempool c committed s).blockchain ≡ s.blockchain
  unfolding remove_committed_from_mempool
  remove_committed-blockchain = ground arith

  pub remove_committed-disk : (remove_committed_from_mempool c committed s).disk ≡ s.disk
  unfolding remove_committed_from_mempool
  remove_committed-disk = ground arith

  pub remove_committed-nonce_table :
      (remove_committed_from_mempool c committed s).nonce_table ≡ s.nonce_table
  unfolding remove_committed_from_mempool
  remove_committed-nonce_table = ground arith

  pub remove_committed-balances :
      (remove_committed_from_mempool c committed s).balances ≡ s.balances
  unfolding remove_committed_from_mempool
  remove_committed-balances = ground arith

-- The chain, and what is stored of it.
abbrev pub chains : State → List Block × Option (List Block)
chains s = (s.blockchain, s.disk.saved_blockchain)

slash_single-chains :
    (addr : Str) (amt : ℤ) (s : State) → chains ((slash_single addr amt s).1) ≡ chains s
unfolding slash_single
slash_single-chains addr amt s = ground arith

redistribute-chains :
    (offender : Str) (hon : ℤ) (s : State) → chains (redistribute offender hon s) ≡ chains s
unfolding redistribute
redistribute-chains offender hon s = ground arith

pay_reporter-chains :
    (reporter : Str) (whis : ℤ) (s : State) → chains (pay_reporter reporter whis s) ≡ chains s
unfolding pay_reporter
pay_reporter-chains reporter whis s = ground arith

distribute_slashed-chains :
    (t : ℤ) (reporter offender : Str) (s : State)
    → chains (distribute_slashed t reporter offender s) ≡ chains s
unfolding distribute_slashed
distribute_slashed-chains t reporter offender s = elim (Bool-cases (leb_ℤ t (pos 0))) [
  | inl e ↦ rw e
  | inr e ↦ rw e (redistribute-chains offender _ _ ∙ pay_reporter-chains reporter _ _)
]

distribute_by_kind-chains :
    (k : SlashKind) (t : ℤ) (reporter offender : Str) (s : State)
    → chains (distribute_by_kind k t reporter offender s) ≡ chains s
unfolding distribute_by_kind
distribute_by_kind-chains slash_downtime_kind t reporter offender s = refl
distribute_by_kind-chains slash_safety_kind t reporter offender s =
    distribute_slashed-chains t reporter offender s

suspend_after-chains :
    (now : ℤ) (offender : Str) (p : SlashParams) (s : State)
    → chains (suspend_after now offender p s) ≡ chains s
unfolding suspend_after suspend_validator get_or_create_runtime
suspend_after-chains now offender p s = ground arith

apply_slash-chains :
    (now : ℤ) (offender : Str) (p : SlashParams) (reporter : Str) (s : State)
    → chains (apply_slash now offender p reporter s) ≡ chains s
unfolding apply_slash save_validators
apply_slash-chains now offender p reporter s =
    let amt = slash_amount offender p s in
    let taken = slash_single-chains offender amt s in
    elim (Bool-cases (leb_ℤ amt (pos 0))) [
      | inl e ↦ rw e
      | inr e ↦ rw e (elim (Bool-cases (leb_ℤ (slash_single offender amt s).0 (pos 0))) [
        | inl e' ↦ rw e' taken
        | inr e' ↦ rw e' (
            suspend_after-chains now offender p _
            ∙ distribute_by_kind-chains p.kind _ reporter offender _
            ∙ taken)
      ])
    ]

pub slash_safety_fault-chains :
    (now : ℤ) (addr : Str) (amount : ℤ) (reporter : Str) (mul' : Float64) (s : State)
    → chains (slash_safety_fault now addr amount reporter mul' s) ≡ chains s
unfolding slash_safety_fault
slash_safety_fault-chains now addr amount reporter mul' s = apply_slash-chains now addr _ reporter s

pub slash_downtime-chains :
    (now : ℤ) (addr : Str) (s : State) → chains (slash_downtime now addr s) ≡ chains s
unfolding slash_downtime
slash_downtime-chains now addr s = apply_slash-chains now addr _ [] s

pub slash_validator-chains :
    (now : ℤ) (addr : Str) (amount : ℤ) (s : State)
    → chains (slash_validator now addr amount s) ≡ chains s
unfolding slash_validator
slash_validator-chains now addr amount s = slash_safety_fault-chains now addr amount [] one s

pub slash_validator-blockchain :
    (now : ℤ) (addr : Str) (amount : ℤ) (s : State)
    → (slash_validator now addr amount s).blockchain ≡ s.blockchain
slash_validator-blockchain now addr amount s =
    ap (λ p. p.0) (slash_validator-chains now addr amount s)
