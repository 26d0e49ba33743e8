-- ===== src/Cli/Args.antt =====
-- How cli/cli.go reads its arguments: `strconv.Atoi`, `strings.ToLower`, the scopes, the commands.
use hyperlux_chain.Prelude.{
  ℕ, zero, suc, ◌+◌, ◌-◌, ◌*◌, ◌^◌, ◌≡◌, refl, Bool, true, false, ◌&&◌, Option, none, some, List,
  [], ◌∷◌, if◌then◌else◌, ltb, leb, ◌==◌,
}
use hyperlux_chain.Prelude.Int.{ℤ, pos, negsuc}
use hyperlux_chain.Prelude.Str.{Str, codes, Str_discrete, to_lower, equals}
use hyperlux_chain.Ledger.Types.{SuspensionScope, scope_none, scope_propose, scope_vote, scope_all}

abbrev pub is_digit : ℕ → Bool
is_digit b = leb b'0' b && leb b b'9'

-- The number that digits stand for; `none` where another byte stands among them. As in `ParseUint`,
-- the bytes after an overflow of 64 bits are not looked at.
unfoldable pub read_digits : ℕ → Str → Option ℕ
read_digits acc [] = some acc
read_digits acc (b ∷ s) =
    let acc' = acc * 10 + (b - b'0') in
    let rest = read_digits acc' s in
    if is_digit b then if ltb acc' (2 ^ 64) then rest else some acc' else none

unfoldable pub read_number : Str → Option ℕ
unfolding read_digits
read_number [] = none
read_number (b ∷ s) = read_digits 0 (b ∷ s)

-- A number that is out of range gives the nearest `int` and an error.
unfoldable pub positive_int : Option ℕ → ℤ × Bool
positive_int none = (pos 0, false)
positive_int (some n) = if ltb n (2 ^ 63) then (pos n, true) else (pos (2 ^ 63 - 1), false)

unfoldable pub negative_int : Option ℕ → ℤ × Bool
negative_int none = (pos 0, false)
negative_int (some zero) = (pos 0, true)
negative_int (some (suc n)) =
    if ltb n (2 ^ 63) then (negsuc n, true) else (negsuc (2 ^ 63 - 1), false)

-- `strconv.Atoi`: the value, and whether there was no error.
unfoldable pub atoi : Str → ℤ × Bool
unfolding read_number positive_int negative_int
atoi [] = (pos 0, false)
atoi (b ∷ s) =
    if b == b'-'
    then negative_int (read_number s)
    else if b == b'+'
    then positive_int (read_number s)
    else positive_int (read_number (b ∷ s))

unfoldable pub parse_scope : Str → SuspensionScope × Bool
unfolding to_lower
parse_scope s =
    let t = to_lower s in
    if equals t (codes "propose")
    then (scope_propose, true)
    else if equals t (codes "vote")
    then (scope_vote, true)
    else if equals t (codes "all")
    then (scope_all, true)
    else (scope_none, false)

unfoldable pub scope_to_string : SuspensionScope → Str
scope_to_string scope_propose = codes "propose"
scope_to_string scope_vote = codes "vote"
scope_to_string scope_all = codes "all"
scope_to_string scope_none = codes "none"

-- The cases of the switch in `RunCLI`.
pub data Command : Type 0 where
  init_command start_command tx_command tx_bulk_command tx_bulk_random_parallel_command
        tx_bulk_multi_command stress_test_command auto_commit_command :
      Command
  stress_and_commit_command wallet_bulk_command metrics_command commit_command airdrop_command
        fix_validators_command full_test_command :
      Command
  validator_status_command suspend_command slash_command show_econ_command : Command

abbrev command_names : List (Str × Command)
command_names =
    (codes "init", init_command)
    ∷ (codes "start", start_command)
    ∷ (codes "tx", tx_command)
    ∷ (codes "tx-bulk", tx_bulk_command)
    ∷ (codes "tx-bulk-random-parallel", tx_bulk_random_parallel_command)
    ∷ (codes "tx-bulk-multi", tx_bulk_multi_command)
    ∷ (codes "stress-test", stress_test_command)
    ∷ (codes "auto-commit", auto_commit_command)
    ∷ (codes "stress-and-commit", stress_and_commit_command)
    ∷ (codes "wallet-bulk", wallet_bulk_command)
    ∷ (codes "metrics", metrics_command)
    ∷ (codes "commit", commit_command)
    ∷ (codes "airdrop", airdrop_command)
    ∷ (codes "fix-validators", fix_validators_command)
    ∷ (codes "full-test", full_test_command)
    ∷ (codes "validator-status", validator_status_command)
    ∷ (codes "suspend", suspend_command)
    ∷ (codes "slash", slash_command)
    ∷ (codes "show-econ", show_econ_command)
    ∷ []

unfoldable pub find_command : Str → List (Str × Command) → Option Command
find_command name [] = none
find_command name ((n, c) ∷ cs) =
    let rest = find_command name cs in if equals name n then some c else rest

-- The command that a name stands for, if any.
unfoldable pub command_of : Str → Option Command
unfolding find_command
command_of name = find_command name command_names

atoi_examples :
    (atoi (codes "-12") ≡ (negsuc 11, true))
    × (atoi (codes "+7") ≡ (pos 7, true))
    × (atoi (codes "1x") ≡ (pos 0, false))
    × (atoi (codes "9999999999999999999") ≡ (pos (2 ^ 63 - 1), false))
    × (atoi (codes "99999999999999999999x") ≡ (pos (2 ^ 63 - 1), false))
    × (atoi (codes "9999999999999999999x") ≡ (pos 0, false))
unfolding atoi
atoi_examples = (refl, refl, refl, refl, refl, refl)

command_example : command_of (codes "suspend") ≡ some suspend_command
unfolding command_of Str_discrete
command_example = refl

scope_examples :
    (parse_scope (codes "Vote") ≡ (scope_vote, true))
    × (parse_scope (codes "none") ≡ (scope_none, false))
unfolding parse_scope Str_discrete
scope_examples = (refl, refl)
