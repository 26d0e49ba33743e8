-- ===== src/Ledger/ApplySlash.antt =====
-- The executor of slashes and the calls that the other packages make (ledger/validator.go).
use hyperlux_chain.Prelude.{
  ℕ, not, ◌&&◌, ite, Option, none, some, [], is_empty, get_elem?, if◌then◌else◌,
}
use hyperlux_chain.Prelude.Int.{ℤ, pos, leb_ℤ, ltb_ℤ}
use hyperlux_chain.Prelude.Word64.{add64, sub64, mul64, quot64}
use hyperlux_chain.Prelude.Str.{Str}
use hyperlux_chain.Prelude.Float64.{Float64, scale_int, is_positive, is_one}
use hyperlux_chain.Ledger.Types.{State, ValidatorDef, scope_none, Scope-discrete}
use hyperlux_chain.Ledger.Storage.{save_validators}
use hyperlux_chain.Ledger.Validators.{
  SlashParams, SlashKind, slash_downtime_kind, slash_safety_kind, default_safety_policy,
  default_downtime_policy, one, suspend_validator,
}
use hyperlux_chain.Ledger.Slashing.{find_validator, slash_single, distribute_slashed}

-- The percentage of a stake, and at least one token of a positive one.
percent_of : Float64 → ValidatorDef → ℤ
percent_of percent v =
    let amt = scale_int v.stake percent in
    if leb_ℤ amt (pos 0) && ltb_ℤ (pos 0) v.stake then pos 1 else amt

percent_at : Option ℕ → SlashParams → State → ℤ
unfolding percent_of
percent_at none params s = params.amount
percent_at (some i) params s = elim (get_elem? s.validators i) [
  | none ↦ params.amount
  | some v ↦ percent_of params.percent v
]

-- The amount to slash, before the correlation factor.
unfoldable pub base_amount : Str → SlashParams → State → ℤ
unfolding percent_at
base_amount offender params s =
    if leb_ℤ params.amount (pos 0) && is_positive params.percent
    then percent_at (find_validator offender s.validators) params s
    else params.amount

unfoldable pub slash_amount : Str → SlashParams → State → ℤ
unfolding base_amount
slash_amount offender params s =
    let amt = base_amount offender params s in
    if is_positive params.correlation_mul && not (is_one params.correlation_mul)
    then scale_int amt params.correlation_mul
    else amt

unfoldable pub distribute_by_kind : SlashKind → ℤ → Str → Str → State → State
distribute_by_kind slash_downtime_kind actual reporter offender s = record s {
  burned_supply = add64 s.burned_supply actual;
}
distribute_by_kind slash_safety_kind actual reporter offender s =
    distribute_slashed actual reporter offender s

unfoldable pub suspend_after : ℤ → Str → SlashParams → State → State
suspend_after now offender params s =
    if ltb_ℤ (pos 0) params.suspend_for
    then ite (Scope-discrete params.suspend_scope scope_none) s
        (suspend_validator now offender params.suspend_scope params.suspend_for s)
    else s

-- The clock is read only to suspend.
unfoldable pub apply_slash : ℤ → Str → SlashParams → Str → State → State
unfolding slash_amount distribute_by_kind suspend_after
apply_slash now offender params reporter s =
    let amt = slash_amount offender params s in
    if leb_ℤ amt (pos 0)
    then s
    else let (actual, taken) = slash_single offender amt s in
      if leb_ℤ actual (pos 0)
      then taken
      else save_validators (
          suspend_after now offender params
            (distribute_by_kind params.kind actual reporter offender taken))

unfoldable pub slash_downtime : ℤ → Str → State → State
slash_downtime now addr s = apply_slash now addr default_downtime_policy [] s

unfoldable pub slash_safety_fault : ℤ → Str → ℤ → Str → Float64 → State → State
slash_safety_fault now addr amount reporter correlation_mul s =
    let p = record default_safety_policy { amount = amount } in
    let q : SlashParams =
      if is_positive correlation_mul then record p { correlation_mul = correlation_mul } else p in
    apply_slash now addr q reporter s

unfoldable pub slash_validator : ℤ → Str → ℤ → State → State
slash_validator now addr amount s = slash_safety_fault now addr amount [] one s

-- The two slashes read the clock one after the other.
unfoldable pub slash_cluster : ℤ → ℤ → Str → Str → ℤ → Str → State → State
slash_cluster now later main_addr sub_addr total_amount reporter s =
    let main_amt = quot64 (mul64 total_amount (pos 40)) (pos 100) in
    let sub_amt = sub64 total_amount main_amt in
    let after_sub =
      if ltb_ℤ (pos 0) sub_amt && not (is_empty sub_addr)
      then slash_safety_fault now sub_addr sub_amt reporter one s
      else s in
    if leb_ℤ total_amount (pos 0)
    then s
    else if ltb_ℤ (pos 0) main_amt && not (is_empty main_addr)
    then slash_safety_fault later main_addr main_amt reporter one after_sub
    else after_sub
