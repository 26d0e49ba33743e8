-- ===== src/Consensus/Choice.antt =====
-- The choice of the proposer in consensus/consensus.go.
use mathlib.Core.List.{Memᴰ}
use hyperlux_chain.Prelude.{
  ℕ, suc, ◌+◌, ◌%◌, ◌≡◌, refl, sym, ap, subst, inl, inr, false, some, List, [], ◌∷◌, ◌++◌, arith,
  Bool-cases, All, All-append_left, All-append_right, ◌==◌,
}
use hyperlux_chain.Prelude.Int.{
  ℤ, pos, pos_part, neg_part, ◌+ℤ◌, ◌≤ℤ◌, ◌<ℤ◌, int_laws, eq_le, eq_of_parts, ltb_ℤ,
}
use hyperlux_chain.Prelude.Str.{Str}
use hyperlux_chain.Primitives.{Primitives}
use hyperlux_chain.Ledger.Types.{State, ValidatorDef, scope_propose}
use hyperlux_chain.Ledger.Slashing.Single.{stakes}
use hyperlux_chain.Ledger.Validators.{is_suspended}
use hyperlux_chain.Consensus.{
  big_endian, total_stake, big_mod, pick_at, select_validator_vrf, first_eligible,
  select_validator_vrf_eligible,
}

abbrev pub HasStake : ValidatorDef → Type 0
HasStake v = pos 0 ≤ℤ v.stake

total_stake-stakes : (vs : List ValidatorDef) (acc : ℤ) → total_stake vs acc ≡ acc +ℤ stakes vs
unfolding total_stake stakes
total_stake-stakes [] acc = omega int_laws
total_stake-stakes (v ∷ vs) acc = omega (int_laws, eq_le (total_stake-stakes vs (acc +ℤ v.stake)))

stakes_nonneg : (vs : List ValidatorDef) → All HasStake vs → pos 0 ≤ℤ stakes vs
unfolding stakes
stakes_nonneg [] h = omega arith
stakes_nonneg (v ∷ vs) h = omega (int_laws, stakes_nonneg vs h.1)

pick_at-interval :
    (r : ℤ) (before : List ValidatorDef) (v : ValidatorDef) (after : List ValidatorDef) (acc : ℤ)
    → All HasStake before
    → acc +ℤ stakes before ≤ℤ r
    → r <ℤ acc +ℤ stakes before +ℤ v.stake
    → pick_at r (before ++ (v ∷ after)) acc ≡ some v
unfolding pick_at stakes
pick_at-interval r [] v after acc h low high = grind int_laws
pick_at-interval r (w ∷ ws) v after acc h low high =
    let rest = stakes_nonneg ws h.1 in
    let not_yet : ltb_ℤ r (acc +ℤ w.stake) ≡ false = grind int_laws in
    rw not_yet
      (pick_at-interval r ws v after (acc +ℤ w.stake) h.1 (omega int_laws) (omega int_laws))

stakes_cons : (v : ValidatorDef) (vs : List ValidatorDef) → stakes (v ∷ vs) ≡ v.stake +ℤ stakes vs
unfolding stakes
stakes_cons v vs = refl

stakes-append : (vs ws : List ValidatorDef) → stakes (vs ++ ws) ≡ stakes vs +ℤ stakes ws
unfolding stakes
stakes-append [] ws = omega int_laws
stakes-append (v ∷ vs) ws = omega (int_laws, eq_le (stakes-append vs ws))

-- The residue that the digest of the seed leaves modulo the sum of the stakes.
abbrev pub draw : Primitives → Str → List ValidatorDef → ℕ
draw c seed vs = big_endian 0 (c.sha256 seed) % pos_part (stakes vs)

-- Stake is what decides: when no stake is negative, a validator is chosen whenever
-- the draw falls into its interval, which is as long as its stake and begins where the stakes of
-- the validators before it end.
pub select_validator_vrf-interval :
    (c : Primitives) (seed : Str) (s : State) (before : List ValidatorDef) (v : ValidatorDef)
    (after : List ValidatorDef)
    → s.validators ≡ before ++ (v ∷ after)
    → All HasStake s.validators
    → stakes before ≤ℤ pos (draw c seed s.validators)
    → pos (draw c seed s.validators) <ℤ stakes before +ℤ v.stake
    → select_validator_vrf c seed s ≡ v
unfolding select_validator_vrf big_mod
select_validator_vrf-interval c seed s before v after e h low high =
    let split = subst (All HasStake) e h in
    let tail_stakes = All-append_right HasStake before (v ∷ after) split in
    let exact : total_stake s.validators (pos 0) ≡ stakes s.validators =
      eq_of_parts _ _ (omega (int_laws, eq_le (total_stake-stakes s.validators (pos 0)))) in
    let some_stake : pos 0 <ℤ stakes s.validators = omega (
      int_laws,
      stakes_nonneg after tail_stakes.1,
      eq_le (ap stakes e),
      eq_le (stakes-append before (v ∷ after)),
      eq_le (stakes_cons v after),
    ) in
    let whole : pos_part (stakes s.validators) + neg_part (stakes s.validators)
        ≡ pos_part (stakes s.validators) =
      ground arith in
    let unequal : (pos_part (stakes s.validators) == neg_part (stakes s.validators)) ≡ false =
      ground arith in
    let picked : pick_at (pos (draw c seed s.validators)) s.validators (pos 0) ≡ some v =
      subst (λ vs. pick_at (pos (draw c seed s.validators)) vs (pos 0) ≡ some v) (sym e)
        (pick_at-interval (pos (draw c seed s.validators)) before v after (pos 0)
          (All-append_left HasStake before (v ∷ after) split) (omega int_laws) (omega int_laws)) in
    rw (exact, unequal, whole, picked)

first_eligible-IsFree :
    (clock : ℕ → ℤ) (now : ℤ) (n : ℕ) (s : State) (pick v : ValidatorDef) (vs : List ValidatorDef)
    → ((i : ℕ) → clock i ≡ now)
    → Memᴰ v vs
    → is_suspended now v.address scope_propose s ≡ false
    → is_suspended now (first_eligible clock n s pick vs).address scope_propose s ≡ false
unfolding first_eligible
first_eligible-IsFree clock now n s pick v [] k m free = elim m [ ]
first_eligible-IsFree clock now n s pick v (w ∷ vs) k m free =
    elim (Bool-cases (is_suspended (clock n) w.address scope_propose s)) [
      | inr e ↦ rw e (subst (λ t. is_suspended t w.address scope_propose s ≡ false) (k n) e)
      | inl e ↦ rw e (elim m [
        | Memᴰ.head q ↦
            absurd (cc (e, k n, free, ap (λ u. is_suspended now u.address scope_propose s) q))
        | Memᴰ.tail m' ↦ first_eligible-IsFree clock now (suc n) s pick v vs k m' free
      ])
    ]

-- If some validator is not suspended from proposing, then at one reading of the clock the chosen
-- proposer is not suspended either.
pub select_eligible-IsFree :
    (c : Primitives) (now : ℤ) (seed : Str) (s : State) (v : ValidatorDef)
    → Memᴰ v s.validators
    → is_suspended now v.address scope_propose s ≡ false
    → is_suspended now (select_validator_vrf_eligible c (λ i. now) seed s).address scope_propose s
      ≡ false
unfolding select_validator_vrf_eligible
select_eligible-IsFree c now seed s v m free =
    elim (Bool-cases (is_suspended now (select_validator_vrf c seed s).address scope_propose s)) [
      | inr e ↦ rw e e
      | inl e ↦ rw e (
          first_eligible-IsFree (λ i. now) now 1 s (select_validator_vrf c seed s) v s.validators
            (λ i. refl) m free)
    ]
