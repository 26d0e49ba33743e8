-- ===== src/Ledger/Validators.antt =====
-- Suspension and slashing of validators (ledger/validator.go). Clock readings are arguments, in
-- nanoseconds since 1970; durations are in nanoseconds too.
pub mod Suspension
use hyperlux_chain.Prelude.{◌*◌, ◌/◌, ◌^◌, Bool, true, false, none, some, [], if◌then◌else◌}
use hyperlux_chain.Prelude.Int.{ℤ, pos, negsuc, ◌+ℤ◌, leb_ℤ}
use hyperlux_chain.Prelude.Str.{Str}
use hyperlux_chain.Prelude.Dict.{lookup, insert}
use hyperlux_chain.Prelude.Float64.{Float64, seventy_percent, fifteen_percent, ten_percent}
use hyperlux_chain.Ledger.Types.{
  State, ValidatorRuntime, SuspensionScope, scope_none, scope_propose, scope_vote, scope_all,
}

-- `t.Unix()`: whole seconds, rounded down.
unfoldable pub unix : ℤ → ℤ
unix (pos n) = pos (n / 10 ^ 9)
unix (negsuc n) = negsuc (n / 10 ^ 9)

-- The runtime record of an address, created if there is none.
unfoldable pub get_or_create_runtime : Str → State → ValidatorRuntime × State
get_or_create_runtime addr s = elim (lookup addr s.validator_status) [
  | some rt ↦ (rt, s)
  | none ↦
      let rt : ValidatorRuntime = record { suspended_until = pos 0; suspend_scope = scope_none } in
      (rt, record s { validator_status = insert addr rt s.validator_status })
]

-- Whether a suspension of the first scope bars what the second asks for.
unfoldable pub scope_bars : SuspensionScope → SuspensionScope → Bool
scope_bars scope_all need = true
scope_bars scope_propose scope_propose = true
scope_bars scope_vote scope_vote = true
scope_bars _ _ = false

unfoldable pub is_suspended : ℤ → Str → SuspensionScope → State → Bool
unfolding scope_bars
is_suspended now addr need s = elim (lookup addr s.validator_status) [
  | none ↦ false
  | some rt ↦
      if leb_ℤ rt.suspended_until (unix now) then false else scope_bars rt.suspend_scope need
]

-- The record is shared by pointer, so the write to it is a write to the table.
unfoldable pub suspend_validator : ℤ → Str → SuspensionScope → ℤ → State → State
unfolding get_or_create_runtime
suspend_validator now addr scope dur s =
    let made = get_or_create_runtime addr s in
    record (made.1) {
      validator_status =
          insert addr
            (record (made.0) { suspended_until = unix (now +ℤ dur); suspend_scope = scope })
            made.1.validator_status;
    }

pub data SlashKind : Type 0 where
  slash_downtime_kind slash_safety_kind : SlashKind

-- The four shares and the reporter are set by the policies, and nothing reads them.
pub record SlashParams : Type 0 where
  pub amount : ℤ
  pub percent : Float64
  pub burn_pct : Float64
  pub treasury_pct : Float64
  pub whistle_pct : Float64
  pub honest_pct : Float64
  pub reporter : Str
  pub kind : SlashKind
  pub correlation_mul : Float64
  pub suspend_scope : SuspensionScope
  pub suspend_for : ℤ

abbrev pub one : Float64
one = record { mant = 1; scale = 0 }

abbrev float_zero : Float64
float_zero = record { mant = 0; scale = 0 }

unfoldable pub default_safety_policy : SlashParams
default_safety_policy = record {
  amount = pos 0;
  percent = float_zero;
  burn_pct = seventy_percent;
  treasury_pct = fifteen_percent;
  whistle_pct = ten_percent;
  honest_pct = record { mant = 3602879701896397; scale = 56 };
  reporter = [];
  kind = slash_safety_kind;
  correlation_mul = one;
  suspend_scope = scope_all;
  suspend_for = pos (24 * 3600 * 10 ^ 9);
}

unfoldable pub default_downtime_policy : SlashParams
default_downtime_policy = record {
  amount = pos 0;
  percent = record { mant = 7378697629483821; scale = 66 };
  burn_pct = one;
  treasury_pct = float_zero;
  whistle_pct = float_zero;
  honest_pct = float_zero;
  reporter = [];
  kind = slash_downtime_kind;
  correlation_mul = one;
  suspend_scope = scope_propose;
  suspend_for = pos (5 * 60 * 10 ^ 9);
}
