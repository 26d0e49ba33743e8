-- ===== src/Ledger/Slashing/Single.antt =====
-- slashSingle (ledger/validator.go): what is taken from a validator's stake.
use hyperlux_chain.Prelude.{
  ℕ, zero, suc, true, ◌^◌, ◌≡◌, ◌⊎◌, refl, sym, ap, subst, ◌∙◌, Option, some, none, List, [], ◌∷◌,
  All, arith, Bool-cases, inl, inr, get_elem?, set, ite, if_pos, if_neg,
}
use mathlib.Core.Option
use mathlib.Core.Option.{some-injective}
use hyperlux_chain.Prelude.Int.{
  ℤ, pos, ◌+ℤ◌, ◌-ℤ◌, ◌≤ℤ◌, ◌<ℤ◌, ltb_ℤ, leb_ℤ, int_laws, eq_le, eq_of_parts,
}
use hyperlux_chain.Prelude.Word64.{sub64, sub64_exact}
use hyperlux_chain.Prelude.Str.{Str, Str_discrete}
use hyperlux_chain.Ledger.Types.{State, ValidatorDef}
use hyperlux_chain.Ledger.Slashing.{find_validator, take_stake, take_at, slash_single}

-- The exact sum of the stakes.
unfoldable pub stakes : List ValidatorDef → ℤ
stakes [] = pos 0
stakes (v ∷ vs) = v.stake +ℤ stakes vs

-- A stake that is not negative and fits an `int`.
abbrev pub IsStaked : ValidatorDef → Type 0
IsStaked v = (pos 0 ≤ℤ v.stake) × (v.stake <ℤ pos (2 ^ 63))

stakes-set :
    (vs : List ValidatorDef) (i : ℕ) (v w : ValidatorDef)
    → get_elem? vs i ≡ some v
    → stakes (set vs i w) +ℤ v.stake ≡ stakes vs +ℤ w.stake
unfolding stakes
stakes-set [] i v w e = cc
stakes-set (x ∷ xs) zero v w e =
    let same = ap (λ (u : ValidatorDef). u.stake) (some-injective _ _ e) in
    omega (int_laws, eq_le same)
stakes-set (x ∷ xs) (suc i) v w e = omega (int_laws, eq_le (stakes-set xs i v w e))

get_elem-IsStaked :
    (vs : List ValidatorDef) (i : ℕ) (v : ValidatorDef)
    → All IsStaked vs
    → get_elem? vs i ≡ some v
    → IsStaked v
get_elem-IsStaked [] i v h e = cc
get_elem-IsStaked (x ∷ xs) zero v h e = subst IsStaked (some-injective _ _ e) h.0
get_elem-IsStaked (x ∷ xs) (suc i) v h e = get_elem-IsStaked xs i v h.1 e

set-IsStaked :
    (vs : List ValidatorDef) (i : ℕ) (w : ValidatorDef)
    → All IsStaked vs
    → IsStaked w
    → All IsStaked (set vs i w)
set-IsStaked [] i w h k = tt
set-IsStaked (x ∷ xs) zero w h k = (k, h.1)
set-IsStaked (x ∷ xs) (suc i) w h k = (h.0, set-IsStaked xs i w h.1 k)

-- The stake of the first validator with the address, or nothing.
unfoldable pub named_stake : Str → List ValidatorDef → ℤ
named_stake addr [] = pos 0
named_stake addr (v ∷ vs) = ite (Str_discrete v.address addr) v.stake (named_stake addr vs)

-- The first validator with the address has less stake by `t`, and the others are as they were.
unfoldable pub less_stake : Str → ℤ → List ValidatorDef → List ValidatorDef
less_stake addr t [] = []
less_stake addr t (v ∷ vs) =
    ite (Str_discrete v.address addr) (record v { stake = v.stake -ℤ t } ∷ vs)
      (v ∷ less_stake addr t vs)

not_positive : (z : ℤ) → pos 0 ≤ℤ z → leb_ℤ z (pos 0) ≡ true → z ≡ pos 0
not_positive z p e =
    let le : z ≤ℤ pos 0 = ground (arith, e) in eq_of_parts _ _ (omega (int_laws, p, le))

minus_zero : (z : ℤ) → z -ℤ pos 0 ≡ z
minus_zero z = eq_of_parts _ _ (omega int_laws)

less_stake_zero : (addr : Str) (vs : List ValidatorDef) → less_stake addr (pos 0) vs ≡ vs
unfolding less_stake
less_stake_zero addr [] = refl
less_stake_zero addr (v ∷ vs) = elim (Str_discrete v.address addr) [
  | yes e ↦ rw (if_pos _ e) (λ i. record v { stake = minus_zero v.stake i } ∷ vs)
  | no ne ↦ rw (if_neg _ ne) (ap (◌∷◌ v) (less_stake_zero addr vs))
]

named_stake_nonneg :
    (addr : Str) (vs : List ValidatorDef) → All IsStaked vs → pos 0 ≤ℤ named_stake addr vs
unfolding named_stake
named_stake_nonneg addr [] h = omega arith
named_stake_nonneg addr (v ∷ vs) h = ground (arith, named_stake_nonneg addr vs h.1)

-- What findValidator's answer says of the stakes.
record IsAt (addr : Str) (vs : List ValidatorDef) (i : ℕ) : Type 0 where
  there : ValidatorDef
  at_index : get_elem? vs i ≡ some there
  its_stake : named_stake addr vs ≡ there.stake
  its_loss : (t : ℤ) → set vs i (record there { stake = there.stake -ℤ t }) ≡ less_stake addr t vs

Found : Str → List ValidatorDef → Option ℕ → Type 0
Found addr vs none = named_stake addr vs ≡ pos 0
Found addr vs (some i) = IsAt addr vs i

Found-later :
    (addr : Str) (v : ValidatorDef) (vs : List ValidatorDef) (o : Option ℕ)
    → ¬ (v.address ≡ addr)
    → Found addr vs o
    → Found addr (v ∷ vs) (Option.map suc o)
unfolding Found named_stake less_stake
Found-later addr v vs none ne f = rw (if_neg _ ne) f
Found-later addr v vs (some i) ne f = record {
  there = f.there;
  at_index = f.at_index;
  its_stake = rw (if_neg _ ne) f.its_stake;
  its_loss = λ t. rw (if_neg _ ne) (ap (◌∷◌ v) (f.its_loss t));
}

find_validator-Found :
    (addr : Str) (vs : List ValidatorDef) → Found addr vs (find_validator addr vs)
unfolding Found find_validator named_stake less_stake
find_validator-Found addr [] = refl
find_validator-Found addr (v ∷ vs) =
    let rest = Option.map suc (find_validator addr vs) in
    elim (Str_discrete v.address addr) [
      | yes e ↦
          let here : IsAt addr (v ∷ vs) zero = record {
            there = v;
            at_index = refl;
            its_stake = rw (if_pos _ e) refl;
            its_loss = λ t. rw (if_pos _ e) refl;
          } in
          subst (Found addr (v ∷ vs))
            (sym (if_pos (Str_discrete v.address addr) e (some zero) rest)) here
      | no ne ↦
          subst (Found addr (v ∷ vs))
            (sym (if_neg (Str_discrete v.address addr) ne (some zero) rest))
            (Found-later addr v vs (find_validator addr vs) ne (find_validator-Found addr vs))
    ]

-- The smaller of the amount and the stake of the named validator is taken, from that validator and
-- from nothing else, which is exactly what the stakes have lost together.
pub record Taken (addr : Str) (amt : ℤ) (s : State) (made : ℤ × State) : Type 0 where
  pub some_taken : pos 0 ≤ℤ made.0
  pub at_most : made.0 ≤ℤ amt
  pub at_most_stake : made.0 ≤ℤ named_stake addr s.validators
  pub one_of_both : (made.0 ≡ amt) ⊎ (made.0 ≡ named_stake addr s.validators)
  pub taken_from : made.1 ≡ record s { validators = less_stake addr made.0 s.validators }
  pub lost : stakes made.1.validators +ℤ made.0 ≡ stakes s.validators
  pub still : All IsStaked made.1.validators
  pub same_balances : made.1.balances ≡ s.balances

nothing-Taken :
    (addr : Str) (amt : ℤ) (s : State)
    → pos 0 ≤ℤ amt
    → (pos 0 ≡ amt) ⊎ (pos 0 ≡ named_stake addr s.validators)
    → All IsStaked s.validators
    → Taken addr amt s (pos 0, s)
nothing-Taken addr amt s p why h = record {
  some_taken = omega arith;
  at_most = p;
  at_most_stake = named_stake_nonneg addr s.validators h;
  one_of_both = why;
  taken_from = λ i. record s { validators = sym (less_stake_zero addr s.validators) i };
  lost = omega int_laws;
  still = h;
  same_balances = refl;
}

within-Taken :
    (addr : Str) (i : ℕ) (amt t : ℤ) (s : State)
    → (f : IsAt addr s.validators i) → pos 0 ≤ℤ t
    → t ≤ℤ amt
    → t ≤ℤ f.there.stake
    → (t ≡ amt) ⊎ (t ≡ f.there.stake)
    → All IsStaked s.validators
    → Taken addr amt s (
      t,
      record s {
        validators = set s.validators i (record f.there { stake = sub64 f.there.stake t });
      },
    )
within-Taken addr i amt t s f low high within why h =
    let v = f.there in
    let staked = get_elem-IsStaked s.validators i v h f.at_index in
    let exact = sub64_exact v.stake t (omega int_laws) in
    let moved = stakes-set s.validators i v (record v { stake = sub64 v.stake t }) f.at_index in
    record {
      some_taken = low;
      at_most = high;
      at_most_stake = subst (λ z. t ≤ℤ z) (sym f.its_stake) within;
      one_of_both = subst (λ z. (t ≡ amt) ⊎ (t ≡ z)) (sym f.its_stake) why;
      taken_from =
          ap (λ z. record s { validators = set s.validators i (record v { stake = z }) }) exact
          ∙ ap (λ vs. record s { validators = vs }) (f.its_loss t);
      lost = eq_of_parts _ _ (omega (int_laws, eq_le moved, eq_le exact));
      still =
          set-IsStaked s.validators i _ h
            (omega (int_laws, eq_le exact), omega (int_laws, eq_le exact));
      same_balances = refl;
    }

take_stake-Taken :
    (addr : Str) (i : ℕ) (amt : ℤ) (s : State)
    → (f : IsAt addr s.validators i) → pos 0 ≤ℤ amt
    → All IsStaked s.validators
    → Taken addr amt s (take_stake i amt f.there s)
unfolding take_stake
take_stake-Taken addr i amt s f p h =
    let v = f.there in
    let staked = get_elem-IsStaked s.validators i v h f.at_index in
    elim (Bool-cases (ltb_ℤ v.stake amt)) [
      | inl b ↦
          rw b
            (within-Taken addr i amt v.stake s f staked.0 (ground arith) (omega arith) (inr refl) h)
      | inr b ↦ rw b (within-Taken addr i amt amt s f p (omega arith) (ground arith) (inl refl) h)
    ]

take_at-Taken :
    (addr : Str) (o : Option ℕ) (amt : ℤ) (s : State)
    → Found addr s.validators o
    → pos 0 ≤ℤ amt
    → All IsStaked s.validators
    → Taken addr amt s (take_at o amt s)
unfolding take_at Found
take_at-Taken addr none amt s f p h = nothing-Taken addr amt s p (inr (sym f)) h
take_at-Taken addr (some i) amt s f p h =
    rw (f.at_index, take_at) (take_stake-Taken addr i amt s f p h)

-- When the amount is not negative and every stake is between zero and the largest `int`,
-- slashSingle takes the smaller of the amount and the stake of the first validator with the address
-- (nothing where there is none), which that validator's stake loses; nothing else in the state
-- changes, and no stake becomes negative.
pub slash_single-Taken :
    (addr : Str) (amt : ℤ) (s : State)
    → pos 0 ≤ℤ amt
    → All IsStaked s.validators
    → Taken addr amt s (slash_single addr amt s)
unfolding slash_single
slash_single-Taken addr amt s p h = elim (Bool-cases (leb_ℤ amt (pos 0))) [
  | inl e ↦ rw e (nothing-Taken addr amt s p (inl (sym (not_positive amt p e))) h)
  | inr e ↦ rw e (take_at-Taken addr _ amt s (find_validator-Found addr s.validators) p h)
]
