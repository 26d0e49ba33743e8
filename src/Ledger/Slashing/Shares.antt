-- ===== src/Ledger/Slashing/Shares.antt =====
-- The honest validators' shares of a slash (ledger/validator.go, distributeSlashed), as numbers, for
-- stakes that are not negative.
use native.Mathlib.Nat.{div-add-mod, mod-lt, zero-add}
use hyperlux_chain.Prelude.{
  ℕ, ◌+◌, ◌*◌, ◌/◌, ◌^◌, ◌≤◌, ◌<◌, ◌≡◌, ap, ◌∙◌, ite, if_pos, if_neg, List, [], ◌∷◌, All, length,
  arith,
}
use hyperlux_chain.Prelude.Int.{ℤ, pos, negsuc, pos_part, ◌+ℤ◌, ◌≤ℤ◌, int_laws}
use hyperlux_chain.Prelude.Word64.{add64, mul64, quot64, mul64_pos, quot64_pos, add64_exact}
use hyperlux_chain.Prelude.Str.{Str, Str_discrete}
use hyperlux_chain.Ledger.Types.{ValidatorDef}
use hyperlux_chain.Ledger.Slashing.{honest_stake, share_of}

-- No validator has a negative stake.
abbrev pub HasStakes : List ValidatorDef → Type 0
HasStakes = All (λ v. pos 0 ≤ℤ v.stake)

-- The stake of all validators but the offender, exactly.
unfoldable pub honest_sum : Str → List ValidatorDef → ℕ
honest_sum offender [] = 0
honest_sum offender (v ∷ vs) =
    ite (Str_discrete v.address offender) 0 (pos_part v.stake) + honest_sum offender vs

add_stake :
    (acc : ℕ) (z : ℤ)
    → pos 0 ≤ℤ z
    → acc + pos_part z < 2 ^ 63
    → add64 (pos acc) z ≡ pos (acc + pos_part z)
add_stake acc (pos k) h room =
    let sum : pos acc +ℤ pos k ≡ pos (acc + k) = omega int_laws in
    add64_exact (pos acc) (pos k) (rw sum (omega arith)) ∙ sum
add_stake acc (negsuc k) h room = absurd (omega arith)

honest_stake_exact :
    (offender : Str) (vs : List ValidatorDef) (acc : ℕ)
    → HasStakes vs
    → acc + honest_sum offender vs < 2 ^ 63
    → honest_stake offender vs (pos acc) ≡ pos (acc + honest_sum offender vs)
unfolding honest_stake honest_sum
honest_stake_exact offender [] acc h room = omega int_laws
honest_stake_exact offender (v ∷ vs) acc h room = elim (Str_discrete v.address offender) [
  | yes e ↦
      let room' : acc + honest_sum offender vs < 2 ^ 63 = ground arith in
      rw (if_pos _ e, if_pos _ e)
        (honest_stake_exact offender vs acc h.1 room' ∙ ap pos (omega arith))
  | no ne ↦
      let room' : acc + pos_part v.stake + honest_sum offender vs < 2 ^ 63 = ground arith in
      rw (if_neg _ ne, if_neg _ ne)
        (ap (honest_stake offender vs) (add_stake acc v.stake h.0 (omega arith))
          ∙ honest_stake_exact offender vs (acc + pos_part v.stake) h.1 room'
          ∙ ap pos (omega arith))
]

-- The source's sum of the stakes but the offender's.
pub honest_stake_sum :
    (offender : Str) (vs : List ValidatorDef)
    → HasStakes vs
    → honest_sum offender vs < 2 ^ 63
    → honest_stake offender vs (pos 0) ≡ pos (honest_sum offender vs)
honest_stake_sum offender vs h small =
    honest_stake_exact offender vs 0 h (omega arith) ∙ ap pos (zero-add (honest_sum offender vs))

-- The shares together, exactly.
unfoldable pub shares_sum : Str → ℕ → ℕ → List ValidatorDef → ℕ
shares_sum offender hon total [] = 0
shares_sum offender hon total (v ∷ vs) =
    ite (Str_discrete v.address offender) 0 (hon * pos_part v.stake / total)
    + shares_sum offender hon total vs

pub share_exact :
    (hon total : ℕ) (v : ValidatorDef)
    → pos 0 ≤ℤ v.stake
    → hon * pos_part v.stake < 2 ^ 63
    → share_of (pos hon) (pos total) v ≡ pos (hon * pos_part v.stake / total)
unfolding share_of
share_exact hon total v h room =
    let plain : v.stake ≡ pos (pos_part v.stake) = ground arith in
    ap (λ z. quot64 (mul64 (pos hon) z) (pos total)) plain
    ∙ ap (λ z. quot64 z (pos total)) (mul64_pos hon (pos_part v.stake) room)
    ∙ quot64_pos (hon * pos_part v.stake) total room

pub shares_sum_upper :
    (offender : Str) (hon total : ℕ) (vs : List ValidatorDef)
    → shares_sum offender hon total vs * total ≤ hon * honest_sum offender vs
unfolding shares_sum honest_sum
shares_sum_upper offender hon total [] = omega arith
shares_sum_upper offender hon total (v ∷ vs) = elim (Str_discrete v.address offender) [
  | yes e ↦ ground (arith, shares_sum_upper offender hon total vs)
  | no ne ↦
      ground
        (arith, shares_sum_upper offender hon total vs, div-add-mod (hon * pos_part v.stake) total)
]

pub shares_sum_lower :
    (offender : Str) (hon total : ℕ) (vs : List ValidatorDef)
    → 0 < total
    → hon * honest_sum offender vs ≤ (shares_sum offender hon total vs + length vs) * total
unfolding shares_sum honest_sum
shares_sum_lower offender hon total [] h = omega arith
shares_sum_lower offender hon total (v ∷ vs) h = elim (Str_discrete v.address offender) [
  | yes e ↦ ground (arith, shares_sum_lower offender hon total vs h)
  | no ne ↦ ground (
    arith,
    shares_sum_lower offender hon total vs h,
    div-add-mod (hon * pos_part v.stake) total,
    mod-lt (hon * pos_part v.stake) h,
  )
]
