-- ===== src/Ledger/Slashing/Payouts.antt =====
-- distributeSlashed (ledger/validator.go): what the reporter and the honest validators get, account by
-- account.
use native.Mathlib.Nat.{le_of_mul-le-mul_right}
use hyperlux_chain.Prelude.{
  ℕ, zero, suc, ◌+◌, ◌-◌, ◌^◌, ◌≤◌, ◌<◌, ◌≡◌, refl, sym, ap, ◌∙◌, true, false, ite, List, [], ◌∷◌,
  arith, inl, inr, Bool-cases, is_empty, if◌then◌else◌, ◌==◌,
}
use hyperlux_chain.Prelude.Int.{ℤ, pos, ◌+ℤ◌, ◌<ℤ◌, ltb_ℤ, eq_le, zero_right, int_laws, eq_of_parts}
use hyperlux_chain.Prelude.Word64.{add64, add64_exact}
use hyperlux_chain.Prelude.Str.{Str, Str_discrete}
use hyperlux_chain.Prelude.Dict.{
  Dict, get, insert, total, IsSolvent, total_nonneg, get_nonneg, get-le-total,
}
use hyperlux_chain.Prelude.Float64.{
  Float64, of_ℕ, mul, trunc, seventy_percent, fifteen_percent, ten_percent,
}
use hyperlux_chain.Ledger.Types.{State, ValidatorDef}
use hyperlux_chain.Ledger.Batch.Refinement.{only_at, add_at}
use hyperlux_chain.Ledger.Slashing.{pay_reporter, redistribute, pay_all_honest}
use hyperlux_chain.Ledger.Slashing.Shares.{
  HasStakes, honest_sum, honest_stake_sum, shares_sum, shares_sum_upper,
}
use hyperlux_chain.Ledger.Slashing.Distribution.{
  Fits, coins, IsFunded, share_for, deposit_share, total-deposit_share, pay_honest-deposit,
}

-- `n` times a fraction, cut off.
abbrev pub part : ℕ → Float64 → ℕ
part n f = trunc (mul (of_ℕ n) f)

-- What is left for the honest validators.
abbrev pub honest_part : ℕ → ℕ
honest_part n = n - (part n seventy_percent + part n fifteen_percent + part n ten_percent)

-- Where nobody reported, the treasury gets the reporter's part.
abbrev pub reward : Str → ℕ → ℕ
reward reporter w = if is_empty reporter then 0 else w

abbrev pub unrewarded : Str → ℕ → ℕ
unrewarded reporter w = if is_empty reporter then w else 0

-- The shares of the validators with the address `a`, by stake, the offender left out.
unfoldable pub shares_to : Str → Str → ℕ → ℕ → List ValidatorDef → ℕ
shares_to a offender hon t [] = 0
shares_to a offender hon t (v ∷ vs) =
    ite (Str_discrete v.address a) (share_for offender hon t v) 0 + shares_to a offender hon t vs

-- Where no other validator has a stake, the treasury gets the honest validators' part.
abbrev pub shared : Str → Str → ℕ → List ValidatorDef → ℕ
shared a offender hon vs =
    let t = honest_sum offender vs in if t == 0 then 0 else shares_to a offender hon t vs

abbrev pub unshared : Str → ℕ → List ValidatorDef → ℕ
unshared offender hon vs = if honest_sum offender vs == 0 then hon else 0

pub only_at_zero : (k a : Str) (z : ℤ) → z +ℤ only_at k a (pos 0) ≡ z
only_at_zero k a z = elim (Str_discrete k a) as (λ d. z +ℤ ite d (pos 0) (pos 0) ≡ z) [
  | yes e ↦ zero_right z
  | no ne ↦ zero_right z
]

only_at_pos : (k a : Str) (x : ℕ) → only_at k a (pos x) ≡ pos (ite (Str_discrete k a) x 0)
only_at_pos k a x = elim (Str_discrete k a) as (λ d. ite d (pos x) (pos 0) ≡ pos (ite d x 0)) [
  | yes e ↦ refl
  | no ne ↦ refl
]

pub add_pos : (z : ℤ) (m n : ℕ) → z +ℤ pos m +ℤ pos n ≡ z +ℤ pos (m + n)
add_pos z m n = eq_of_parts _ _ (omega int_laws)

-- `m[k] += x` where the values leave room for it, at each key.
get-deposit :
    (k a : Str) (x : ℕ) (m : Dict ℤ)
    → IsSolvent m
    → total m +ℤ pos x <ℤ pos (2 ^ 63)
    → get a (insert k (add64 (get k m) (pos x)) m) ≡ get a m +ℤ only_at k a (pos x)
get-deposit k a x m h room =
    ap (λ z. get a (insert k z m))
      (add64_exact (get k m) (pos x) (omega (int_laws, get_nonneg k m h, get-le-total k m h)))
    ∙ add_at k a (pos x) m

get-deposit_share :
    (k a : Str) (x : ℕ) (m : Dict ℤ)
    → IsSolvent m
    → total m +ℤ pos x <ℤ pos (2 ^ 63)
    → get a (deposit_share k x m) ≡ get a m +ℤ only_at k a (pos x)
unfolding deposit_share
get-deposit_share k a zero m h room = sym (only_at_zero k a (get a m))
get-deposit_share k a (suc x) m h room = rw (positive x) (get-deposit k a (suc x) m h room)
  where
    positive : (n : ℕ) → ltb_ℤ (pos 0) (pos (suc n)) ≡ true
    positive n = ground arith

-- Each account gets its shares, exactly.
get-pay_all_honest :
    (a offender : Str) (hon t : ℕ) (vs : List ValidatorDef) (m : Dict ℤ)
    → HasStakes vs
    → Fits hon vs
    → IsSolvent m
    → total m +ℤ pos (shares_sum offender hon t vs) <ℤ pos (2 ^ 63)
    → get a (pay_all_honest offender (pos hon) (pos t) vs m)
      ≡ get a m +ℤ pos (shares_to a offender hon t vs)
unfolding pay_all_honest shares_sum share_for shares_to
get-pay_all_honest a offender hon t [] m h fits sol room = sym (zero_right (get a m))
get-pay_all_honest a offender hon t (v ∷ vs) m h fits sol room =
    let x = share_for offender hon t v in
    let m' = deposit_share v.address x m in
    let (sol', paid) = total-deposit_share v.address x m sol (omega (int_laws, room)) in
    let here = get-deposit_share v.address a x m sol (omega (int_laws, room)) in
    let rest =
      get-pay_all_honest a offender hon t vs m' h.1 fits.1 sol'
        (omega (int_laws, eq_le paid, room)) in
    let own = only_at_pos v.address a x in
    ap (λ k. get a (pay_all_honest offender (pos hon) (pos t) vs k))
      (pay_honest-deposit offender hon t v m h.0 fits.0)
    ∙ rest
    ∙ ap (λ z. z +ℤ pos (shares_to a offender hon t vs)) (here ∙ ap (λ z. get a m +ℤ z) own)
    ∙ add_pos (get a m) (ite (Str_discrete v.address a) x 0) (shares_to a offender hon t vs)

-- The reporter's part reaches the reporter, or the treasury.
pub record Rewarded (reporter : Str) (w : ℕ) (s s' : State) : Type 0 where
  pub same_burned : s'.burned_supply ≡ s.burned_supply
  pub to_treasury : s'.treasury_balance ≡ s.treasury_balance +ℤ pos (unrewarded reporter w)
  pub to_account :
      (a : Str)
      → get a s'.balances ≡ get a s.balances +ℤ only_at reporter a (pos (reward reporter w))

pub treasury_exact :
    (x : ℕ) (s : State)
    → IsFunded s
    → coins s +ℤ pos x <ℤ pos (2 ^ 63)
    → add64 s.treasury_balance (pos x) ≡ s.treasury_balance +ℤ pos x
unfolding coins
treasury_exact x s f room =
    add64_exact s.treasury_balance (pos x)
      (omega (int_laws, total_nonneg s.balances f.accounts, f.treasury, f.burned))

pub burned_exact :
    (x : ℕ) (s : State)
    → IsFunded s
    → coins s +ℤ pos x <ℤ pos (2 ^ 63)
    → add64 s.burned_supply (pos x) ≡ s.burned_supply +ℤ pos x
unfolding coins
burned_exact x s f room =
    add64_exact s.burned_supply (pos x)
      (omega (int_laws, total_nonneg s.balances f.accounts, f.treasury, f.burned))

pub pay_reporter-Rewarded :
    (reporter : Str) (w : ℕ) (s : State)
    → IsFunded s
    → coins s +ℤ pos w <ℤ pos (2 ^ 63)
    → Rewarded reporter w s (pay_reporter reporter (pos w) s)
unfolding pay_reporter coins
pay_reporter-Rewarded [] w s f room = record {
  same_burned = refl;
  to_treasury = treasury_exact w s f room;
  to_account = λ a. sym (only_at_zero [] a (get a s.balances));
}
pay_reporter-Rewarded (b ∷ r) zero s f room = record {
  same_burned = refl;
  to_treasury = treasury_exact 0 s f room;
  to_account = λ a. sym (only_at_zero (b ∷ r) a (get a s.balances));
}
pay_reporter-Rewarded (b ∷ r) (suc n) s f room =
    let positive : ltb_ℤ (pos 0) (pos (suc n)) ≡ true = ground arith in
    rw positive (record {
      same_burned = refl;
      to_treasury = sym (zero_right s.treasury_balance);
      to_account = λ a.
          get-deposit (b ∷ r) a (suc n) s.balances f.accounts
            (omega (int_laws, f.treasury, f.burned));
    })

-- The honest validators' part reaches them, or the treasury.
pub record Shared (offender : Str) (hon : ℕ) (s s' : State) : Type 0 where
  pub same_burned : s'.burned_supply ≡ s.burned_supply
  pub to_treasury :
      s'.treasury_balance ≡ s.treasury_balance +ℤ pos (unshared offender hon s.validators)
  pub to_account :
      (a : Str) → get a s'.balances ≡ get a s.balances +ℤ pos (shared a offender hon s.validators)

shares_to_zero :
    (a offender : Str) (t : ℕ) (vs : List ValidatorDef) → shares_to a offender 0 t vs ≡ 0
unfolding shares_to share_for
shares_to_zero a offender t [] = refl
shares_to_zero a offender t (v ∷ vs) = ground (arith, shares_to_zero a offender t vs)

pub unshared_zero : (offender : Str) (vs : List ValidatorDef) → unshared offender 0 vs ≡ 0
unshared_zero offender vs = ground arith

pub shared_zero : (a offender : Str) (vs : List ValidatorDef) → shared a offender 0 vs ≡ 0
shared_zero a offender vs = ground (arith, shares_to_zero a offender (honest_sum offender vs) vs)

pub redistribute-Shared :
    (offender : Str) (hon : ℕ) (s : State)
    → HasStakes s.validators
    → Fits hon s.validators
    → honest_sum offender s.validators < 2 ^ 63
    → IsFunded s
    → coins s +ℤ pos hon <ℤ pos (2 ^ 63)
    → Shared offender hon s (redistribute offender (pos hon) s)
unfolding redistribute coins
redistribute-Shared offender zero s h fits small f room = record {
  same_burned = refl;
  to_treasury = sym (
      ap (λ n. s.treasury_balance +ℤ pos n) (unshared_zero offender s.validators)
      ∙ zero_right s.treasury_balance);
  to_account = λ a. sym (
      ap (λ n. get a s.balances +ℤ pos n) (shared_zero a offender s.validators)
      ∙ zero_right (get a s.balances));
}
redistribute-Shared offender (suc n) s h fits small f room =
    let t = honest_sum offender s.validators in
    let staked = honest_stake_sum offender s.validators h small in
    let positive : ltb_ℤ (pos 0) (pos (suc n)) ≡ true = ground arith in
    rw (positive, staked)
      (elim (Bool-cases (t == 0)) [
        | inl nobody ↦
            let none_left : ltb_ℤ (pos 0) (pos t) ≡ false = ground (arith, nobody) in
            rw none_left (record {
              same_burned = refl;
              to_treasury = rw nobody (treasury_exact (suc n) s f room);
              to_account = λ a. rw nobody (sym (zero_right (get a s.balances)));
            })
        | inr somebody ↦
            let some_left : ltb_ℤ (pos 0) (pos t) ≡ true = ground (arith, somebody) in
            let upper : shares_sum offender (suc n) t s.validators ≤ suc n =
              le_of_mul-le-mul_right (shares_sum_upper offender (suc n) t s.validators)
                (ground (arith, somebody)) in
            rw some_left (record {
              same_burned = refl;
              to_treasury = rw somebody (sym (zero_right s.treasury_balance));
              to_account = λ a. rw somebody (
                  get-pay_all_honest a offender (suc n) t s.validators s.balances h fits f.accounts
                    (omega (int_laws, upper, f.treasury, f.burned)));
            })
      ])
