-- ===== src/Ledger/Slashing/Conserves.antt =====
-- distributeSlashed as a whole (ledger/validator.go): it hands out no more than was slashed, and
-- loses less than one token for each validator.
use native.Mathlib.Nat.{le_of_mul-le-mul_right}
use hyperlux_chain.Prelude.{
  ℕ, zero, suc, ◌+◌, ◌-◌, ◌^◌, ◌≤◌, ◌<◌, ◌≡◌, refl, sym, ap, subst, ◌∙◌, true, false, inl, inr,
  List, [], ◌∷◌, length, arith, Bool-cases,
}
use hyperlux_chain.Prelude.Int.{ℤ, pos, ◌+ℤ◌, ◌≤ℤ◌, ◌<ℤ◌, leb_ℤ, ltb_ℤ, eq_le, zero_right, int_laws}
use hyperlux_chain.Prelude.Word64.{add64, add64_exact, sub64, sub64_pos}
use hyperlux_chain.Prelude.Str.{Str}
use hyperlux_chain.Prelude.Dict.{total_nonneg}
use hyperlux_chain.Prelude.Float64.{
  scale_int_pos, of_ℕ, mul, trunc, seventy_percent, fifteen_percent, ten_percent, parts-le,
}
use hyperlux_chain.Ledger.Types.{State, ValidatorDef}
use hyperlux_chain.Ledger.Slashing.{pay_reporter, redistribute, distribute_slashed, pay_all_honest}
use hyperlux_chain.Ledger.Slashing.Shares.{
  HasStakes, honest_sum, honest_stake_sum, shares_sum, shares_sum_upper, shares_sum_lower,
}
use hyperlux_chain.Ledger.Slashing.Distribution.{
  Fits, coins, IsFunded, Gained, to_treasury, pay_reporter-Gained, total-pay_all_honest,
}

-- Of an amount, `x` reached the accounts and sinks, and at most a token for each validator did not.
pub record Handed (n : ℕ) (s s' : State) : Type 0 where
  pub reached : ℕ
  pub done : Gained (pos reached) s s'
  pub no_more : reached ≤ n
  pub nearly_all : n ≤ reached + length s.validators

pay_honest-Handed :
    (offender : Str) (hon : ℕ) (s : State)
    → HasStakes s.validators
    → Fits hon s.validators
    → IsFunded s
    → coins s +ℤ pos hon <ℤ pos (2 ^ 63)
    → 0 < honest_sum offender s.validators
    → Handed hon s (record s {
      balances =
          pay_all_honest offender
            (pos hon)
            (pos (honest_sum offender s.validators))
            s.validators
            s.balances;
    })
unfolding coins
pay_honest-Handed offender hon s h fits f room some_stake =
    let t = honest_sum offender s.validators in
    let x = shares_sum offender hon t s.validators in
    let upper : x ≤ hon =
      le_of_mul-le-mul_right (shares_sum_upper offender hon t s.validators) some_stake in
    let lower : hon ≤ x + length s.validators =
      le_of_mul-le-mul_right (shares_sum_lower offender hon t s.validators some_stake) some_stake in
    let (sol, paid) =
      total-pay_all_honest offender hon t s.validators s.balances h fits f.accounts
        (omega (int_laws, upper, f.treasury, f.burned)) in
    record {
      reached = x;
      done = record {
        funded = record { accounts = sol; treasury = f.treasury; burned = f.burned };
        gained = omega (int_laws, eq_le paid);
        same_validators = refl;
      };
      no_more = upper;
      nearly_all = lower;
    }

redistribute-Handed :
    (offender : Str) (hon : ℕ) (s : State)
    → HasStakes s.validators
    → Fits hon s.validators
    → honest_sum offender s.validators < 2 ^ 63
    → IsFunded s
    → coins s +ℤ pos hon <ℤ pos (2 ^ 63)
    → Handed hon s (redistribute offender (pos hon) s)
unfolding redistribute
redistribute-Handed offender zero s h fits small f room = record {
  reached = 0;
  done = record { funded = f; gained = sym (zero_right (coins s)); same_validators = refl };
  no_more = omega arith;
  nearly_all = omega arith;
}
redistribute-Handed offender (suc n) s h fits small f room =
    let staked = honest_stake_sum offender s.validators h small in
    let positive : ltb_ℤ (pos 0) (pos (suc n)) ≡ true = ground arith in
    rw (positive, staked)
      (elim (Bool-cases (ltb_ℤ (pos 0) (pos (honest_sum offender s.validators)))) [
        | inl staking ↦
            rw staking (pay_honest-Handed offender (suc n) s h fits f room (ground arith))
        | inr nobody ↦ rw nobody (record {
          reached = suc n;
          done = to_treasury (pos (suc n)) s f (omega arith) room;
          no_more = omega arith;
          nearly_all = omega arith;
        })
      ])

-- The two sinks are credited at once.
pub to_sinks :
    (b t : ℕ) (s : State)
    → IsFunded s
    → coins s +ℤ pos (b + t) <ℤ pos (2 ^ 63)
    → Gained (pos (b + t)) s (record s {
      burned_supply = add64 s.burned_supply (pos b);
      treasury_balance = add64 s.treasury_balance (pos t);
    })
unfolding coins
to_sinks b t s f room =
    let have = total_nonneg s.balances f.accounts in
    rw
      (
        add64_exact s.burned_supply (pos b) (omega (int_laws, have, f.treasury, f.burned)),
        add64_exact s.treasury_balance (pos t) (omega (int_laws, have, f.treasury, f.burned)),
      )
      (record {
        funded = record {
          accounts = f.accounts;
          treasury = omega (int_laws, f.treasury);
          burned = omega (int_laws, f.burned);
        };
        gained = omega int_laws;
        same_validators = refl;
      })

abbrev pub handed_out : Str → Str → ℤ → ℤ → ℤ → ℤ → State → State
handed_out reporter offender burn trea whis hon s = redistribute offender hon (
    pay_reporter reporter whis (record s {
      burned_supply = add64 s.burned_supply burn;
      treasury_balance = add64 s.treasury_balance trea;
    }))

handed_out-Handed :
    (reporter offender : Str) (b t w h : ℕ) (s : State)
    → HasStakes s.validators
    → Fits h s.validators
    → honest_sum offender s.validators < 2 ^ 63
    → IsFunded s
    → coins s +ℤ pos (b + t + w + h) <ℤ pos (2 ^ 63)
    → Handed (b + t + w + h) s (handed_out reporter offender (pos b) (pos t) (pos w) (pos h) s)
handed_out-Handed reporter offender b t w h s stakes fits small f room =
    let s1 = record s {
      burned_supply = add64 s.burned_supply (pos b);
      treasury_balance = add64 s.treasury_balance (pos t);
    } in
    let g1 = to_sinks b t s f (omega (int_laws, room)) in
    let s2 = pay_reporter reporter (pos w) s1 in
    let g2 =
      pay_reporter-Gained reporter (pos w) s1 g1.funded (omega arith)
        (omega (int_laws, eq_le g1.gained, room)) in
    let same = sym g2.same_validators in
    let r =
      redistribute-Handed offender h s2 (subst HasStakes same stakes) (subst (Fits h) same fits)
        (subst (λ vs. honest_sum offender vs < 2 ^ 63) same small) g2.funded
        (omega (int_laws, eq_le g1.gained, eq_le g2.gained, room)) in
    record {
      reached = b + t + w + r.reached;
      done = record {
        funded = r.done.funded;
        gained = omega (int_laws, eq_le r.done.gained, eq_le g2.gained, eq_le g1.gained);
        same_validators = r.done.same_validators ∙ g2.same_validators;
      };
      no_more = omega (arith, r.no_more);
      nearly_all = omega (arith, r.nearly_all, ap length g2.same_validators);
    }

pub coins_nonneg : (s : State) → IsFunded s → pos 0 ≤ℤ coins s
unfolding coins
coins_nonneg s f = omega (int_laws, total_nonneg s.balances f.accounts, f.treasury, f.burned)

-- What is left for the honest validators.
pub honest_rest :
    (n b t w : ℕ)
    → b + t + w ≤ n
    → n < 2 ^ 63
    → sub64 (sub64 (sub64 (pos n) (pos b)) (pos t)) (pos w) ≡ pos (n - (b + t + w))
honest_rest n b t w parts whole =
    let one_less : sub64 (pos n) (pos b) ≡ pos (n - b) = sub64_pos n b (omega arith) whole in
    let two_less : sub64 (pos (n - b)) (pos t) ≡ pos (n - b - t) =
      sub64_pos (n - b) t (omega arith) (omega arith) in
    rw (one_less, two_less)
      (sub64_pos (n - b - t) w (omega arith) (omega arith) ∙ ap pos (omega arith))

pub Fits-mono : {m n : ℕ} (vs : List ValidatorDef) → m ≤ n → Fits n vs → Fits m vs
Fits-mono [] le h = tt
Fits-mono (v ∷ vs) le h = (grind arith, Fits-mono vs le h.1)

-- A slashed amount is burned, credited to the treasury, the reporter and the honest validators, and
-- nothing else: never more than the amount in all, and less by one token for each validator at most.
-- The validators' stakes are left alone and no balance or sink becomes negative. This needs stakes,
-- balances and sinks that are not negative and that do not overflow with the amount, together or in
-- the products of the shares.
pub distribute_slashed-Handed :
    (n : ℕ) (reporter offender : Str) (s : State)
    → HasStakes s.validators
    → Fits n s.validators
    → honest_sum offender s.validators < 2 ^ 63
    → IsFunded s
    → coins s +ℤ pos n <ℤ pos (2 ^ 63)
    → Handed n s (distribute_slashed (pos n) reporter offender s)
unfolding distribute_slashed
distribute_slashed-Handed zero reporter offender s h fits small f room = record {
  reached = 0;
  done = record { funded = f; gained = sym (zero_right (coins s)); same_validators = refl };
  no_more = omega arith;
  nearly_all = omega arith;
}
distribute_slashed-Handed (suc k) reporter offender s h fits small f room =
    let n = suc k in
    let b = trunc (mul (of_ℕ n) seventy_percent) in
    let t = trunc (mul (of_ℕ n) fifteen_percent) in
    let w = trunc (mul (of_ℕ n) ten_percent) in
    let r = n - (b + t + w) in
    let whole : n < 2 ^ 63 = omega (int_laws, coins_nonneg s f, room) in
    let parts = parts-le n in
    let positive : leb_ℤ (pos (suc k)) (pos 0) ≡ false = ground arith in
    let sum : b + t + w + r ≡ n = omega (arith, parts) in
    rw
      (
        positive,
        scale_int_pos n seventy_percent (omega (arith, parts, whole)),
        scale_int_pos n fifteen_percent (omega (arith, parts, whole)),
        scale_int_pos n ten_percent (omega (arith, parts, whole)),
        honest_rest n b t w parts whole,
      )
      (subst (λ m. Handed m s (handed_out reporter offender (pos b) (pos t) (pos w) (pos r) s)) sum
        (handed_out-Handed reporter offender b t w r s h
          (Fits-mono s.validators (omega (arith, sum)) fits) small f (rw sum room)))
