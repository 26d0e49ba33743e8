-- ===== src/Cli/Handlers/Reports.antt =====
-- What the commands validator-status, show-econ and metrics of cli/cli.go find out and print.
pub mod Window
use mathlib.Core.Option
use hyperlux_chain.Prelude.{
  ℕ, zero, suc, ◌+◌, ◌-◌, Bool, true, false, Option, none, some, List, [], ◌∷◌, map, length,
  get_elem?, take, ite, if◌then◌else◌, ltb,
}
use hyperlux_chain.Prelude.Int.{ℤ, pos, leb_ℤ, ltb_ℤ}
use hyperlux_chain.Prelude.Word64.{add64, sub64}
use hyperlux_chain.Prelude.Str.{Str, Str_discrete}
use hyperlux_chain.Prelude.Dict.{lookup, get}
use hyperlux_chain.Ledger.Types.{
  State, Block, ValidatorDef, ValidatorRuntime, scope_propose, scope_vote, scope_all,
}
use hyperlux_chain.Ledger.Validators.{unix, is_suspended}
use hyperlux_chain.Cli.Args.{scope_to_string}

pub record Status : Type 0 where
  pub stake : ℤ
  pub wallet_loaded : Bool
  pub suspended_propose : Bool
  pub suspended_vote : Bool
  pub suspended_all : Bool
  pub shown_scope : Option Str
  pub shown_until : Option ℤ

abbrev pub is_some {ℓ} : {A : Type ℓ} → Option A → Bool
is_some none = false
is_some (some a) = true

-- The stake of the first validator with the address.
unfoldable pub stake_of : Str → List ValidatorDef → Option ℤ
stake_of addr [] = none
stake_of addr (v ∷ vs) =
    let rest = stake_of addr vs in ite (Str_discrete v.address addr) (some v.stake) rest

-- The suspension that is shown: none that has run out.
unfoldable pub shown : ℤ → Option ValidatorRuntime → Option ValidatorRuntime
shown now none = none
shown now (some rt) = if ltb_ℤ (unix now) rt.suspended_until then some rt else none

-- All readings of the clock are taken to be one.
unfoldable pub validator_status : ℤ → Str → State → Option Status
unfolding stake_of shown
validator_status now addr s = elim (stake_of addr s.validators) [
  | none ↦ none
  | some stake ↦
      let rt = shown now (lookup addr s.validator_status) in
      some (record {
        stake = stake;
        wallet_loaded = is_some (lookup addr s.validator_wallets);
        suspended_propose = is_suspended now addr scope_propose s;
        suspended_vote = is_suspended now addr scope_vote s;
        suspended_all = is_suspended now addr scope_all s;
        shown_scope = elim rt [ none ↦ none | some r ↦ some (scope_to_string r.suspend_scope) ];
        shown_until = elim rt [ none ↦ none | some r ↦ some r.suspended_until ];
      })
]

pub record Econ : Type 0 where
  pub treasury : ℤ
  pub burned : ℤ
  pub validator_count : ℕ
  pub total_staked : ℤ
  pub top_stake : ℤ
  pub top_address : Str
  pub samples : List (Str × ℤ)

-- The sum of the stakes, and the first of the largest positive ones.
unfoldable pub stake_table : List ValidatorDef → ℤ → ℤ → Str → ℤ × ℤ × Str
stake_table [] sum top addr = (sum, top, addr)
stake_table (v ∷ vs) sum top addr =
    let above = stake_table vs (add64 sum v.stake) v.stake v.address in
    let below = stake_table vs (add64 sum v.stake) top addr in
    if ltb_ℤ top v.stake then above else below

unfoldable pub show_econ : State → Econ
unfolding stake_table
show_econ s =
    let (sum, top, addr) = stake_table s.validators (pos 0) (pos 0) [] in
    record {
      treasury = s.treasury_balance;
      burned = s.burned_supply;
      validator_count = length s.validators;
      total_staked = sum;
      top_stake = top;
      top_address = addr;
      samples = map (λ v. (v.address, get v.address s.balances)) (take 5 s.validators);
    }

pub record Metrics : Type 0 where
  pub height : ℕ
  pub last_index : ℤ
  pub last_txs : ℕ
  pub block_time : Option ℤ
  pub window : ℕ
  pub sum_tx : ℕ
  pub sum_dt : ℤ

-- The seconds between two blocks, at least one.
unfoldable pub block_time_of : Block → Block → ℤ
block_time_of prev last =
    let dt = sub64 last.timestamp prev.timestamp in if leb_ℤ dt (pos 0) then pos 1 else dt

-- One round of the loop over the window.
unfoldable pub add_window : Option Block → Option Block → ℕ × ℤ → ℕ × ℤ
add_window (some b) (some p) (tx, dt) =
    let d = sub64 b.timestamp p.timestamp in
    (tx + length b.transactions, if ltb_ℤ (pos 0) d then add64 dt d else dt)
add_window _ _ sums = sums

-- `rounds` rounds, at the indices from `i` on.
unfoldable pub window_sums : ℕ → ℕ → List Block → ℕ × ℤ → ℕ × ℤ
unfolding add_window
window_sums zero i chain sums = sums
window_sums (suc rounds) i chain sums =
    window_sums rounds (suc i) chain (add_window (get_elem? chain i) (get_elem? chain (i - 1)) sums)

-- `if sumDt <= 0`
abbrev pub at_least_one : ℤ → ℤ
at_least_one dt = if leb_ℤ dt (pos 0) then pos 1 else dt

-- What is shown of the last block and of the window before it.
unfoldable pub metrics_of : ℕ → ℕ → List Block → Block → Metrics
unfolding window_sums block_time_of
metrics_of height window chain last =
    let sums = window_sums window (suc (height - 1 - window)) chain (0, pos 0) in
    record {
      height = height;
      last_index = last.index;
      last_txs = length last.transactions;
      block_time = if ltb height 2 then none else elim (get_elem? chain (height - 2)) [
        | none ↦ none
        | some prev ↦ some (block_time_of prev last)
      ];
      window = window;
      sum_tx = sums.0;
      sum_dt = at_least_one sums.1;
    }

abbrev pub window_of : ℕ → ℕ
window_of n = if ltb n 20 then n else 20

-- `none` where there are no blocks. The rate shown is `sum_tx` by `sum_dt`.
unfoldable pub chain_metrics : List Block → Option Metrics
unfolding metrics_of
chain_metrics chain =
    let height = length chain in
    Option.map (metrics_of height (window_of (height - 1)) chain) (get_elem? chain (height - 1))
