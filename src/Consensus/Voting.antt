-- ===== src/Consensus/Voting.antt =====
-- The vote of consensus/consensus.go: when a block is accepted.
use hyperlux_chain.Prelude.{
  ℕ, suc, ◌+◌, ◌*◌, ◌<◌, ◌≡◌, ◌↔◌, inl, inr, Bool, true, ◌||◌, List, [], ◌∷◌, length, arith,
  Bool-cases, if◌then◌else◌,
}
use hyperlux_chain.Prelude.Int.{ℤ}
use hyperlux_chain.Prelude.Str.{Str}
use hyperlux_chain.Ledger.Types.{State, ValidatorDef, scope_vote, scope_all}
use hyperlux_chain.Ledger.Validators.{is_suspended}
use hyperlux_chain.Consensus.{yes_count, bft_vote}

-- A validator that may not vote, by two readings of the clock.
abbrev pub is_barred : ℤ → ℤ → ValidatorDef → State → Bool
is_barred now later v s =
    is_suspended now v.address scope_vote s || is_suspended later v.address scope_all s

-- How many of the validators may not vote.
unfoldable pub barred : (ℕ → ℤ) → ℕ → State → List ValidatorDef → ℕ
barred clock n s [] = 0
barred clock n s (v ∷ vs) =
    let rest = barred clock (n + 2) s vs in
    if is_barred (clock n) (clock (n + 1)) v s then suc rest else rest

yes-or-barred :
    (clock : ℕ → ℤ) (n : ℕ) (hash : Str) (s : State) (vs : List ValidatorDef)
    → yes_count clock n hash s vs + barred clock n s vs ≡ length vs
unfolding yes_count barred
yes-or-barred clock n hash s [] = omega arith
yes-or-barred clock n hash s (v ∷ vs) =
    elim (Bool-cases (is_barred (clock n) (clock (n + 1)) v s)) [
      | inl e ↦ rw e (omega (arith, yes-or-barred clock (n + 2) hash s vs))
      | inr e ↦ rw e (omega (arith, yes-or-barred clock (n + 2) hash s vs))
    ]

-- A block is accepted exactly when less than a third of the validators is barred from voting.
pub bft_vote-quorum :
    (clock : ℕ → ℤ) (hash : Str) (vs : List ValidatorDef) (s : State)
    → (bft_vote clock hash vs s ≡ true) ↔ (3 * barred clock 0 s vs < length vs)
unfolding bft_vote
bft_vote-quorum clock hash vs s =
    let sum = yes-or-barred clock 0 hash s vs in
    (λ h. ground (arith, sum), λ h. ground (arith, sum))
