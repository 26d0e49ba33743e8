-- ===== src/Prelude/Dict.antt =====
-- A Go map with string keys, as an association list: a write replaces the entry or appends one,
-- so the list stands for one map, and no result below depends on its order.
use mathlib.Core.Path.{◌≡◌, refl, sym, ap, ap₂, subst, ◌∙◌}
use mathlib.Core.Logic.{◌≢◌, ite}
use mathlib.Core.Option.{Option, none, some, some-injective}
use mathlib.Core.List.{List, [], ◌∷◌, Permᴰ}
use native.Mathlib.Omega.{arith}
use Prim.Native.Nat.{◌^◌}
use package.hyperlux_chain.Prelude.Int.{ℤ, pos, ◌+ℤ◌, ◌-ℤ◌, ◌≤ℤ◌, ◌<ℤ◌, eq_le, int_laws}
use package.hyperlux_chain.Prelude.Word64.{add64, add64_exact}
use package.hyperlux_chain.Prelude.Lists.{All, All-perm}
use package.hyperlux_chain.Prelude.Str.{Str, Str_discrete}

abbrev pub Dict {ℓ} : Type ℓ → Type ℓ
Dict V = List (Str × V)

module _ {ℓ} {V : Type ℓ} where
  -- `v, ok := m[k]`
  unfoldable pub lookup : Str → Dict V → Option V
  lookup k [] = none
  lookup k ((j, v) ∷ m) = ite (Str_discrete j k) (some v) (lookup k m)

  -- `m[k] = v`
  unfoldable pub insert : Str → V → Dict V → Dict V
  insert k v [] = (k, v) ∷ []
  insert k v ((j, w) ∷ m) = ite (Str_discrete j k) ((k, v) ∷ m) ((j, w) ∷ insert k v m)

  pub lookup-insert_self : (k : Str) (v : V) (m : Dict V) → lookup k (insert k v m) ≡ some v
  unfolding lookup insert
  lookup-insert_self k v [] = ground arith
  lookup-insert_self k v (e ∷ m) = ground (arith, lookup-insert_self k v m)

  pub lookup-insert_ne :
      (k j : Str) (v : V) (m : Dict V) → k ≢ j → lookup j (insert k v m) ≡ lookup j m
  unfolding lookup insert
  lookup-insert_ne k j v [] h = ground arith
  lookup-insert_ne k j v (e ∷ m) h = ground (arith, lookup-insert_ne k j v m h)

  -- A key that is there stays there.
  pub lookup-insert_still :
      (k j : Str) (v w : V) (m : Dict V)
      → lookup j m ≡ some w
      → (w' : V) × (lookup j (insert k v m) ≡ some w')
  lookup-insert_still k j v w m e = elim (Str_discrete k j) [
    | yes q ↦ (v, subst (λ z. lookup z (insert k v m) ≡ some v) q (lookup-insert_self k v m))
    | no ne ↦ (w, lookup-insert_ne k j v m ne ∙ e)
  ]

  -- What decoding a JSON object into a map does: its entries are written over those of the map.
  unfoldable pub merge : Dict V → Dict V → Dict V
  merge [] m = m
  merge ((k, v) ∷ new) m = merge new (insert k v m)

  abbrev pub or_else : Option V → Option V → Option V
  or_else (some v) o = some v
  or_else none o = o

  pub or_else-none : (o : Option V) → or_else o none ≡ o
  or_else-none none = refl
  or_else-none (some v) = refl

  pub lookup_absent : (k : Str) (m : Dict V) → All (λ e. e.0 ≢ k) m → lookup k m ≡ none
  unfolding lookup
  lookup_absent k [] h = refl
  lookup_absent k (e ∷ m) h = ground (arith, lookup_absent k m h.1)

  -- No key occurs twice.
  abbrev pub IsMap : Dict V → Type 0
  IsMap [] = Unit
  IsMap ((k, v) ∷ m) = All (λ e. e.0 ≢ k) m × IsMap m

  pub lookup-merge :
      (k : Str) (new m : Dict V)
      → IsMap new
      → lookup k (merge new m) ≡ or_else (lookup k new) (lookup k m)
  unfolding merge lookup
  lookup-merge k [] m h = refl
  lookup-merge k ((j, v) ∷ new) m h =
      let rest = lookup-merge k new (insert j v m) h.1 in
      elim (Str_discrete j k) [
        | yes e ↦
            let absent = lookup_absent k new (subst (λ z. All (λ p. p.0 ≢ z) new) e h.0) in
            let written =
              subst (λ z. lookup z (insert j v m) ≡ some v) e (lookup-insert_self j v m) in
            rw (rest, absent, written) (ground arith)
        | no ne ↦ rw (rest, lookup-insert_ne j k v m ne) (ground arith)
      ]

module _ {ℓ κ} {V : Type ℓ} (P : Str × V → Type κ) (k : Str) (v : V) where
  pub insert-All : (m : Dict V) → P (k, v) → All P m → All P (insert k v m)
  unfolding insert
  insert-All [] p h = (p, tt)
  insert-All ((j, w) ∷ m) p h =
      elim (Str_discrete j k) as (λ d. All P (ite d ((k, v) ∷ m) ((j, w) ∷ insert k v m))) [
        | yes e ↦ (p, h.1)
        | no ne ↦ (h.0, insert-All m p h.1)
      ]

  pub lookup-All : (m : Dict V) → lookup k m ≡ some v → All P m → P (k, v)
  unfolding lookup
  lookup-All [] e h = cc
  lookup-All ((j, w) ∷ m) e h = elim (Str_discrete j k) [
    | yes q ↦ subst P (cc (q, some-injective w v (ground (arith, e, q)))) h.0
    | no ne ↦ lookup-All m (ground (arith, e, ne)) h.1
  ]

abbrev pub or_zero : Option ℤ → ℤ
or_zero none = pos 0
or_zero (some v) = v

-- `m[k]` in a map to integers: a missing key reads 0.
unfoldable pub get : Str → Dict ℤ → ℤ
get k m = or_zero (lookup k m)

pub get-insert_self : (k : Str) (v : ℤ) (m : Dict ℤ) → get k (insert k v m) ≡ v
unfolding get
get-insert_self k v m = ground (arith, lookup-insert_self k v m)

pub get-insert_ne : (k j : Str) (v : ℤ) (m : Dict ℤ) → k ≢ j → get j (insert k v m) ≡ get j m
unfolding get
get-insert_ne k j v m h = ground (arith, lookup-insert_ne k j v m h)

-- The exact sum of the values.
unfoldable pub total : Dict ℤ → ℤ
total [] = pos 0
total ((k, v) ∷ m) = v +ℤ total m

-- A write moves the sum by the difference between the new value and the one that was read.
pub total-insert : (k : Str) (v : ℤ) (m : Dict ℤ) → total (insert k v m) ≡ total m +ℤ (v -ℤ get k m)
unfolding total insert get lookup
total-insert k v [] = omega int_laws
total-insert k v (e ∷ m) = grind (int_laws, total-insert k v m)

-- No value is negative.
abbrev pub IsSolvent : Dict ℤ → Type 0
IsSolvent = All (λ e. pos 0 ≤ℤ e.1)

pub insert-IsSolvent :
    (k : Str) (v : ℤ) (m : Dict ℤ) → pos 0 ≤ℤ v → IsSolvent m → IsSolvent (insert k v m)
unfolding insert
insert-IsSolvent k v [] p h = (p, tt)
insert-IsSolvent k v (e ∷ m) p h = ground (arith, insert-IsSolvent k v m p h.1)

pub total_nonneg : (m : Dict ℤ) → IsSolvent m → pos 0 ≤ℤ total m
unfolding total
total_nonneg [] h = omega arith
total_nonneg (e ∷ m) h = omega (int_laws, total_nonneg m h.1)

pub get_nonneg : (k : Str) (m : Dict ℤ) → IsSolvent m → pos 0 ≤ℤ get k m
unfolding get lookup
get_nonneg k [] h = omega arith
get_nonneg k (e ∷ m) h = ground (arith, get_nonneg k m h.1)

pub get-le-total : (k : Str) (m : Dict ℤ) → IsSolvent m → get k m ≤ℤ total m
unfolding get lookup total
get-le-total k [] h = omega arith
get-le-total k (e ∷ m) h = grind (int_laws, get-le-total k m h.1, total_nonneg m h.1)

-- `m[k] += x` where the values leave room for it.
pub total-deposit :
    (k : Str) (x : ℤ) (m : Dict ℤ)
    → IsSolvent m
    → pos 0 ≤ℤ x
    → total m +ℤ x <ℤ pos (2 ^ 63)
    → IsSolvent (insert k (add64 (get k m) x) m)
      × (total (insert k (add64 (get k m) x) m) ≡ total m +ℤ x)
total-deposit k x m h p room =
    rw (add64_exact (get k m) x (omega (int_laws, get_nonneg k m h, get-le-total k m h))) (
      insert-IsSolvent k _ m (omega (int_laws, get_nonneg k m h)) h,
      omega (int_laws, eq_le (total-insert k (get k m +ℤ x) m)),
    )

module _ {ℓ} {V : Type ℓ} where
  pub insert-IsMap : (k : Str) (v : V) (m : Dict V) → IsMap m → IsMap (insert k v m)
  unfolding insert
  insert-IsMap k v [] h = (tt, tt)
  insert-IsMap k v ((j, w) ∷ m) h =
      elim (Str_discrete j k) as (λ d. IsMap (ite d ((k, v) ∷ m) ((j, w) ∷ insert k v m))) [
        | yes e ↦ (subst (λ z. All (λ p. p.0 ≢ z) m) e h.0, h.1)
        | no ne ↦ (insert-All (λ p. p.0 ≢ j) k v m (λ q. ne (sym q)) h.0, insert-IsMap k v m h.1)
      ]

  pub IsMap-perm : {m n : Dict V} → Permᴰ m n → IsMap m → IsMap n
  IsMap-perm Permᴰ.nil h = tt
  IsMap-perm (Permᴰ.cons {b = b} {l₁ = l} e p) h =
      (All-perm (λ q. q.0 ≢ b.0) p (subst (λ z. All (λ q. q.0 ≢ z.0) l) e h.0), IsMap-perm p h.1)
  IsMap-perm (Permᴰ.swap {l = l} e e') h = (
    (
      λ q. h.0.0 (ap (λ z. z.0) e' ∙ sym q ∙ sym (ap (λ z. z.0) e)),
      subst (λ z. All (λ q. q.0 ≢ z.0) l) e' h.1.0,
    ),
    (subst (λ z. All (λ q. q.0 ≢ z.0) l) e h.0.1, h.1.1),
  )
  IsMap-perm (Permᴰ.trans p q) h = IsMap-perm q (IsMap-perm p h)

  lookup_swap :
      (k : Str) (a b : Str × V) (m : Dict V)
      → b.0 ≢ a.0
      → lookup k (a ∷ b ∷ m) ≡ lookup k (b ∷ a ∷ m)
  unfolding lookup
  lookup_swap k a b m ne = ground (arith, ne)

  -- What a map holds does not depend on the order of its entries.
  pub lookup-perm : (k : Str) {m n : Dict V} → Permᴰ m n → IsMap m → lookup k m ≡ lookup k n
  unfolding lookup
  lookup-perm k Permᴰ.nil h = refl
  lookup-perm k (Permᴰ.cons {l₂ = l} e p) h =
      rw (lookup-perm k p h.1) (ap (λ z. lookup k (z ∷ l)) e)
  lookup-perm k (Permᴰ.swap {a = a} {b = b} {l = l} e e') h =
      lookup_swap k a b l h.0.0 ∙ ap₂ (λ y z. lookup k (y ∷ z ∷ l)) e' e
  lookup-perm k (Permᴰ.trans p q) h = lookup-perm k p h ∙ lookup-perm k q (IsMap-perm p h)
