-- ===== src/Cli/Volatile/Untouched.antt =====
-- Ends of a run of cli/cli.go that leave nothing behind.
use hyperlux_chain.Prelude.{◌≡◌, refl, Bool, true, false, Option, none, some, if◌then◌else◌}
use hyperlux_chain.Ledger.Types.{State, Wallet}
use hyperlux_chain.Cli.{
  Machine, Exit, returned, fatal, panicked, machine_of, with_ledger, new_process,
}

-- The next run starts as it would have without this one.
unfoldable pub IsUntouched : Machine → Exit → Type 0
IsUntouched m e = new_process (machine_of e) ≡ new_process m

pub new_process-with_ledger :
    (m : Machine) (s : State)
    → s.disk ≡ m.node.ledger.disk
    → new_process (with_ledger m s) ≡ new_process m
new_process-with_ledger m s e = cc e

pub returned-IsUntouched : (m : Machine) → IsUntouched m (returned m)
unfolding IsUntouched
returned-IsUntouched m = refl

pub fatal-IsUntouched : (m : Machine) → IsUntouched m (fatal m)
unfolding IsUntouched
fatal-IsUntouched m = refl

pub panicked-IsUntouched : (m : Machine) → IsUntouched m (panicked m)
unfolding IsUntouched
panicked-IsUntouched m = refl

pub with_ledger-IsUntouched :
    (m : Machine) (s : State)
    → s.disk ≡ m.node.ledger.disk
    → IsUntouched m (returned (with_ledger m s))
unfolding IsUntouched
with_ledger-IsUntouched m s e = new_process-with_ledger m s e

pub if-IsUntouched :
    (m : Machine) (b : Bool) (x y : Exit)
    → IsUntouched m x
    → IsUntouched m y
    → IsUntouched m (if b then x else y)
if-IsUntouched m true x y p q = p
if-IsUntouched m false x y p q = q

pub loaded-IsUntouched :
    (m : Machine) (o : Option Wallet) (f : Wallet → Exit)
    → ((w : Wallet) → IsUntouched m (f w))
    → IsUntouched m (elim o [ none ↦ fatal m | some w ↦ f w ])
loaded-IsUntouched m none f h = fatal-IsUntouched m
loaded-IsUntouched m (some w) f h = h w
