-- ===== src/Prelude/Float64.antt =====
-- Go's float64 (IEEE 754 binary64), for the values that the sources compute with: finite, not
-- negative, and neither so large nor so small that the exponent runs out. Such a float is
-- mant / 2^scale. A product is rounded to 53 bits, to the nearest, ties to even.
use Prim.Native.Nat.{ℕ, zero, suc, ◌+◌, ◌-◌, ◌*◌, ◌/◌, ◌%◌, ◌^◌, ◌≤◌, ◌<◌}
use mathlib.Core.Path.{◌≡◌, refl}
use mathlib.Core.Logic.{◌⊎◌, inl, inr}
use mathlib.Core.Bool.{Bool, false, ◌&&◌, ◌||◌}
use native.Mathlib.Omega.{arith}
use native.Mathlib.Nat.{pow-suc, div-add-mod, one-le-pow}
use package.hyperlux_chain.Prelude.Tests.{ltb, ◌==◌, if◌then◌else◌, Bool-cases}
use package.hyperlux_chain.Prelude.Int.{ℤ, pos, negsuc, ◌-ℤ◌, leb_ℤ}

pub record Float64 : Type 0 where
  pub mant : ℕ
  pub scale : ℕ

-- How many low bits of `p` do not fit into 53. The fuel bounds the number of halvings.
unfoldable pub excess : ℕ → ℕ → ℕ
excess zero p = 0
excess (suc fuel) p = let rest = suc (excess fuel (p / 2)) in if ltb p (2 ^ 53) then 0 else rest

-- `p` to a multiple of `unit`, the nearest, ties to the even multiple.
unfoldable pub round_to : ℕ → ℕ → ℕ
round_to unit p =
    let q = p / unit in
    let r = p % unit in
    if ltb unit (2 * r) || (2 * r == unit && q % 2 == 1) then (q + 1) * unit else q * unit

unfoldable pub round53 : ℕ → ℕ
unfolding excess round_to
round53 p = round_to (2 ^ excess p p) p

-- `float64(n)`
unfoldable pub of_ℕ : ℕ → Float64
of_ℕ n = record { mant = round53 n; scale = 0 }

unfoldable pub mul : Float64 → Float64 → Float64
mul a b = record { mant = round53 (a.mant * b.mant); scale = a.scale + b.scale }

-- `int(x)`, which rounds towards zero.
unfoldable pub trunc : Float64 → ℕ
trunc a = a.mant / 2 ^ a.scale

-- What amd64 makes of an integer that does not fit: the smallest one.
unfoldable pub to_int64 : ℤ → ℤ
to_int64 z =
    if leb_ℤ (negsuc (2 ^ 63 - 1)) z && leb_ℤ z (pos (2 ^ 63 - 1)) then z else negsuc (2 ^ 63 - 1)

-- `int(float64(n) * f)`
unfoldable pub scale_int : ℤ → Float64 → ℤ
unfolding of_ℕ mul trunc to_int64
scale_int (pos n) f = to_int64 (pos (trunc (mul (of_ℕ n) f)))
scale_int (negsuc n) f = to_int64 (pos 0 -ℤ pos (trunc (mul (of_ℕ (suc n)) f)))

-- `f > 0`
unfoldable pub is_positive : Float64 → Bool
is_positive f = ltb 0 f.mant

-- `f == 1.0`
unfoldable pub is_one : Float64 → Bool
is_one f = f.mant == 2 ^ f.scale

large_le : (p : ℕ) → ltb p (2 ^ 53) ≡ false → 2 ^ 53 ≤ p
large_le p h = ground arith

pub excess-lower : (fuel p : ℕ) → (excess fuel p ≡ 0) ⊎ (2 ^ excess fuel p * 2 ^ 52 ≤ p)
unfolding excess
excess-lower zero p = inl refl
excess-lower (suc fuel) p = elim (Bool-cases (ltb p (2 ^ 53))) [
  | inl small ↦ rw small (inl refl)
  | inr large ↦ rw large (
      inr (elim (excess-lower fuel (p / 2)) [
        | inl z ↦ rw z (ground arith)
        | inr ih ↦ rw (pow-suc 2 (excess fuel (p / 2))) (omega (arith, ih, large_le p large))
      ]))
]

round_to_upper : (unit p : ℕ) → 0 < unit → 2 * round_to unit p ≤ 2 * p + unit
unfolding round_to
round_to_upper unit p h = ground (arith, div-add-mod p unit)

round_to_one : (p : ℕ) → round_to 1 p ≡ p
unfolding round_to
round_to_one p = ground arith

-- Rounding raises a number by one part in 2^53 at most.
pub round53_upper : (p : ℕ) → round53 p * 2 ^ 53 ≤ p * (2 ^ 53 + 1)
unfolding round53
round53_upper p = elim (excess-lower p p) [
  | inl z ↦ rw z (rw (round_to_one p) (omega arith))
  | inr h ↦
      omega (arith, h, round_to_upper (2 ^ excess p p) p (one-le-pow (excess p p) 2 (omega arith)))
]

-- The constants 0.70, 0.15 and 0.10, the binary64 numbers nearest to them.
abbrev pub seventy_percent : Float64
seventy_percent = record { mant = 3152519739159347; scale = 52 }

abbrev pub fifteen_percent : Float64
fifteen_percent = record { mant = 5404319552844595; scale = 55 }

abbrev pub ten_percent : Float64
ten_percent = record { mant = 3602879701896397; scale = 55 }

-- The three parts that are rounded never exceed the whole.
pub parts-le :
    (n : ℕ)
    → trunc (mul (of_ℕ n) seventy_percent)
        + trunc (mul (of_ℕ n) fifteen_percent)
        + trunc (mul (of_ℕ n) ten_percent)
      ≤ n
unfolding trunc mul of_ℕ
parts-le n = omega (
  arith,
  round53_upper n,
  round53_upper (round53 n * 3152519739159347),
  round53_upper (round53 n * 5404319552844595),
  round53_upper (round53 n * 3602879701896397),
)

round53_ties : round53 (2 ^ 54 + 2) ≡ 2 ^ 54
unfolding round53
round53_ties = refl

round53_up : round53 (2 ^ 54 + 3) ≡ 2 ^ 54 + 4
unfolding round53
round53_up = refl

pub scale_int_pos :
    (n : ℕ) (f : Float64)
    → trunc (mul (of_ℕ n) f) < 2 ^ 63
    → scale_int (pos n) f ≡ pos (trunc (mul (of_ℕ n) f))
unfolding scale_int
scale_int_pos n f h = ground arith
