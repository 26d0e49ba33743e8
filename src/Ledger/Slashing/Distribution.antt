-- ===== src/Ledger/Slashing/Distribution.antt =====
-- Where a slashed amount goes (ledger/validator.go, distributeSlashed).
use hyperlux_chain.Prelude.{
  ℕ, zero, suc, ◌+◌, ◌*◌, ◌/◌, ◌^◌, ◌<◌, ◌≡◌, refl, sym, subst, true, ite, if_pos, if_neg, List, [],
  ◌∷◌, All, arith, inl, inr, Bool-cases, is_empty, not, ◌&&◌, if◌then◌else◌,
}
use hyperlux_chain.Prelude.Int.{
  ℤ, pos, pos_part, ◌+ℤ◌, ◌≤ℤ◌, ◌<ℤ◌, ltb_ℤ, eq_le, zero_right, int_laws,
}
use hyperlux_chain.Prelude.Word64.{add64, add64_exact}
use hyperlux_chain.Prelude.Str.{Str, Str_discrete}
use hyperlux_chain.Prelude.Dict.{Dict, get, insert, total, IsSolvent, total_nonneg, total-deposit}
use hyperlux_chain.Ledger.Types.{State, ValidatorDef}
use hyperlux_chain.Ledger.Slashing.{pay_honest, pay_all_honest, pay_reporter}
use hyperlux_chain.Ledger.Slashing.Shares.{HasStakes, shares_sum, share_exact}

unfoldable pub share_for : Str → ℕ → ℕ → ValidatorDef → ℕ
share_for offender hon total v =
    ite (Str_discrete v.address offender) 0 (hon * pos_part v.stake / total)

unfoldable pub deposit_share : (k : Str) (x : ℕ) (m : Dict ℤ) → Dict ℤ
deposit_share k x m = if ltb_ℤ (pos 0) (pos x) then insert k (add64 (get k m) (pos x)) m else m

pub total-deposit_share :
    (k : Str) (x : ℕ) (m : Dict ℤ)
    → IsSolvent m
    → total m +ℤ pos x <ℤ pos (2 ^ 63)
    → IsSolvent (deposit_share k x m) × (total (deposit_share k x m) ≡ total m +ℤ pos x)
unfolding deposit_share
total-deposit_share k zero m h room = (h, sym (zero_right (total m)))
total-deposit_share k (suc x) m h room =
    rw (positive x) (total-deposit k (pos (suc x)) m h (omega arith) room)
  where
    positive : (n : ℕ) → ltb_ℤ (pos 0) (pos (suc n)) ≡ true
    positive n = ground arith

pub pay_honest-deposit :
    (offender : Str) (hon t : ℕ) (v : ValidatorDef) (m : Dict ℤ)
    → pos 0 ≤ℤ v.stake
    → hon * pos_part v.stake < 2 ^ 63
    → pay_honest offender (pos hon) (pos t) v m
      ≡ deposit_share v.address (share_for offender hon t v) m
unfolding pay_honest deposit_share share_for
pay_honest-deposit offender hon t v m h room = elim (Str_discrete v.address offender) [
  | yes e ↦ rw (if_pos _ e, if_pos _ e) (ground arith)
  | no ne ↦ rw (if_neg _ ne, if_neg _ ne) (rw (share_exact hon t v h room) refl)
]

-- No product of the amount with a stake overflows.
abbrev pub Fits : ℕ → List ValidatorDef → Type 0
Fits hon = All (λ v. hon * pos_part v.stake < 2 ^ 63)

-- The shares are paid into the balances, exactly.
pub total-pay_all_honest :
    (offender : Str) (hon t : ℕ) (vs : List ValidatorDef) (m : Dict ℤ)
    → HasStakes vs
    → Fits hon vs
    → IsSolvent m
    → total m +ℤ pos (shares_sum offender hon t vs) <ℤ pos (2 ^ 63)
    → IsSolvent (pay_all_honest offender (pos hon) (pos t) vs m)
      × (total (pay_all_honest offender (pos hon) (pos t) vs m)
          ≡ total m +ℤ pos (shares_sum offender hon t vs))
unfolding pay_all_honest shares_sum share_for
total-pay_all_honest offender hon t [] m h fits sol room = (sol, sym (zero_right (total m)))
total-pay_all_honest offender hon t (v ∷ vs) m h fits sol room =
    let x = share_for offender hon t v in
    let m' = deposit_share v.address x m in
    let (sol', paid) = total-deposit_share v.address x m sol (omega (int_laws, room)) in
    let (sol'', more) =
      total-pay_all_honest offender hon t vs m' h.1 fits.1 sol'
        (omega (int_laws, eq_le paid, room)) in
    subst
      (λ k.
        IsSolvent (pay_all_honest offender (pos hon) (pos t) vs k)
        × (total (pay_all_honest offender (pos hon) (pos t) vs k)
            ≡ total m +ℤ pos (x + shares_sum offender hon t vs)))
      (sym (pay_honest-deposit offender hon t v m h.0 fits.0))
      (sol'', omega (int_laws, eq_le more, eq_le paid))

-- All tokens outside the stakes.
unfoldable pub coins : State → ℤ
coins s = total s.balances +ℤ s.treasury_balance +ℤ s.burned_supply

-- No account and no sink is negative.
pub record IsFunded (s : State) : Type 0 where
  pub accounts : IsSolvent s.balances
  pub treasury : pos 0 ≤ℤ s.treasury_balance
  pub burned : pos 0 ≤ℤ s.burned_supply

-- The sinks and accounts gained the amount, and the validators are as they were.
pub record Gained (x : ℤ) (s s' : State) : Type 0 where
  pub funded : IsFunded s'
  pub gained : coins s' ≡ coins s +ℤ x
  pub same_validators : s'.validators ≡ s.validators

pub to_treasury :
    (x : ℤ) (s : State)
    → IsFunded s
    → pos 0 ≤ℤ x
    → coins s +ℤ x <ℤ pos (2 ^ 63)
    → Gained x s (record s { treasury_balance = add64 s.treasury_balance x })
unfolding coins
to_treasury x s f p room =
    let exact =
      add64_exact s.treasury_balance x
        (omega (int_laws, p, f.treasury, f.burned, total_nonneg s.balances f.accounts)) in
    rw exact (record {
      funded = record {
        accounts = f.accounts;
        treasury = omega (int_laws, f.treasury);
        burned = f.burned;
      };
      gained = omega int_laws;
      same_validators = refl;
    })

pub to_account :
    (k : Str) (x : ℤ) (s : State)
    → IsFunded s
    → pos 0 ≤ℤ x
    → coins s +ℤ x <ℤ pos (2 ^ 63)
    → Gained x s (record s { balances = insert k (add64 (get k s.balances) x) s.balances })
unfolding coins
to_account k x s f p room =
    let (sol, paid) =
      total-deposit k x s.balances f.accounts p (omega (int_laws, f.treasury, f.burned)) in
    record {
      funded = record { accounts = sol; treasury = f.treasury; burned = f.burned };
      gained = omega (int_laws, eq_le paid);
      same_validators = refl;
    }

pub pay_reporter-Gained :
    (reporter : Str) (whis : ℤ) (s : State)
    → IsFunded s
    → pos 0 ≤ℤ whis
    → coins s +ℤ whis <ℤ pos (2 ^ 63)
    → Gained whis s (pay_reporter reporter whis s)
unfolding pay_reporter
pay_reporter-Gained reporter whis s f p room =
    elim (Bool-cases (not (is_empty reporter) && ltb_ℤ (pos 0) whis)) [
      | inl named ↦ rw named (to_account reporter whis s f p room)
      | inr nobody ↦ rw nobody (to_treasury whis s f p room)
    ]
