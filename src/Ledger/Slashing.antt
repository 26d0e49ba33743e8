-- ===== src/Ledger/Slashing.antt =====
-- Slashing (ledger/validator.go): the stake taken from a validator and where it goes.
pub mod Shares
pub mod Distribution
pub mod Conserves
pub mod Payouts
pub mod Recipients
pub mod Single
use hyperlux_chain.Prelude.{
  ℕ, zero, suc, Bool, true, false, not, ◌&&◌, ◌||◌, ite, Option, none, some, List, [], ◌∷◌,
  is_empty, get_elem?, set, if◌then◌else◌,
}
use mathlib.Core.Option
use hyperlux_chain.Prelude.Int.{ℤ, pos, leb_ℤ, ltb_ℤ}
use hyperlux_chain.Prelude.Word64.{add64, sub64, mul64, quot64}
use hyperlux_chain.Prelude.Str.{Str, Str_discrete}
use hyperlux_chain.Prelude.Dict.{Dict, insert, get}
use hyperlux_chain.Prelude.Float64.{
  Float64, scale_int, is_positive, is_one, seventy_percent, fifteen_percent, ten_percent,
}
use hyperlux_chain.Ledger.Types.{State, ValidatorDef, SuspensionScope, scope_none, Scope-discrete}
use hyperlux_chain.Ledger.Storage.{save_validators}
use hyperlux_chain.Ledger.Validators.{
  SlashParams, SlashKind, slash_downtime_kind, slash_safety_kind, default_safety_policy,
  default_downtime_policy, one, suspend_validator,
}

-- The index of the first validator with the address.
unfoldable pub find_validator : Str → List ValidatorDef → Option ℕ
find_validator addr [] = none
find_validator addr (v ∷ vs) =
    let rest = Option.map suc (find_validator addr vs) in
    ite (Str_discrete v.address addr) (some zero) rest

-- `Validators[i].Stake -= amt`, with the amount capped at the stake.
unfoldable pub take_stake : ℕ → ℤ → ValidatorDef → State → ℤ × State
take_stake i amt v s =
    let taken = if ltb_ℤ v.stake amt then v.stake else amt in
    (taken, record s { validators = set s.validators i (record v { stake = sub64 v.stake taken }) })

unfoldable pub take_at : Option ℕ → ℤ → State → ℤ × State
unfolding take_stake
take_at none amt s = (pos 0, s)
take_at (some i) amt s = elim (get_elem? s.validators i) [
  | none ↦ (pos 0, s)
  | some v ↦ take_stake i amt v s
]

unfoldable pub slash_single : Str → ℤ → State → ℤ × State
unfolding take_at
slash_single addr amt s =
    if leb_ℤ amt (pos 0) then (pos 0, s) else take_at (find_validator addr s.validators) amt s

-- The stake of all validators but the offender.
unfoldable pub honest_stake : Str → List ValidatorDef → ℤ → ℤ
honest_stake offender [] acc = acc
honest_stake offender (v ∷ vs) acc =
    honest_stake offender vs (ite (Str_discrete v.address offender) acc (add64 acc v.stake))

unfoldable pub share_of : ℤ → ℤ → ValidatorDef → ℤ
share_of hon total_stake v = quot64 (mul64 hon v.stake) total_stake

-- One round of the loop that pays the honest validators.
unfoldable pub pay_honest : Str → ℤ → ℤ → ValidatorDef → Dict ℤ → Dict ℤ
unfolding share_of
pay_honest offender hon total_stake v balances = ite (Str_discrete v.address offender) balances (
    let share = share_of hon total_stake v in
    if ltb_ℤ (pos 0) share
    then insert v.address (add64 (get v.address balances) share) balances
    else balances)

unfoldable pub pay_all_honest : Str → ℤ → ℤ → List ValidatorDef → Dict ℤ → Dict ℤ
unfolding pay_honest
pay_all_honest offender hon total_stake [] balances = balances
pay_all_honest offender hon total_stake (v ∷ vs) balances =
    pay_all_honest offender hon total_stake vs (pay_honest offender hon total_stake v balances)

-- The whistle-blower's part, or the treasury's where nobody reported.
unfoldable pub pay_reporter : Str → ℤ → State → State
pay_reporter reporter whis s =
    if not (is_empty reporter) && ltb_ℤ (pos 0) whis
    then record s { balances = insert reporter (add64 (get reporter s.balances) whis) s.balances }
    else record s { treasury_balance = add64 s.treasury_balance whis }

unfoldable pub redistribute : Str → ℤ → State → State
redistribute offender hon s =
    let total_stake = honest_stake offender s.validators (pos 0) in
    if ltb_ℤ (pos 0) hon
    then if ltb_ℤ (pos 0) total_stake
      then record s { balances = pay_all_honest offender hon total_stake s.validators s.balances }
      else record s { treasury_balance = add64 s.treasury_balance hon }
    else s

unfoldable pub distribute_slashed : ℤ → Str → Str → State → State
unfolding pay_reporter redistribute
distribute_slashed total reporter offender s =
    let burn = scale_int total seventy_percent in
    let trea = scale_int total fifteen_percent in
    let whis = scale_int total ten_percent in
    let hon = sub64 (sub64 (sub64 total burn) trea) whis in
    if leb_ℤ total (pos 0)
    then s
    else redistribute offender hon (
        pay_reporter reporter whis (record s {
          burned_supply = add64 s.burned_supply burn;
          treasury_balance = add64 s.treasury_balance trea;
        }))
