-- ===== src/Prelude/Word64.antt =====
-- Go's `int` and `int64` on a 64-bit machine: integers in [-2^63, 2^63), whose sums, differences
-- and products wrap around.
use Prim.Native.Nat.{ℕ, ◌+◌, ◌-◌, ◌*◌, ◌/◌, ◌%◌, ◌^◌, ◌≤◌, ◌<◌}
use mathlib.Core.Path.{◌≡◌, refl, ap, ◌∙◌}
use native.Mathlib.Nat.{div-le_self}
use mathlib.Core.Bool.{Bool}
use native.Mathlib.Omega.{arith}
use package.hyperlux_chain.Prelude.Tests.{ltb, ◌==◌, if◌then◌else◌}
use package.hyperlux_chain.Prelude.Int.{
  ℤ, pos, negsuc, pos_part, neg_part, ◌+ℤ◌, ◌-ℤ◌, ◌*ℤ◌, ◌≤ℤ◌, ◌<ℤ◌, sub_ℕ, int_laws,
}

abbrev pub word_size : ℕ
word_size = 2 ^ 64

-- The bit pattern of an integer, as a number below 2^64.
unfoldable pub residue : ℤ → ℕ
residue z = (pos_part z + (word_size - neg_part z % word_size)) % word_size

-- The integer that a bit pattern stands for.
unfoldable pub signed64 : ℕ → ℤ
signed64 w = if ltb w (2 ^ 63) then pos w else negsuc (word_size - w - 1)

unfoldable pub wrap64 : ℤ → ℤ
unfolding residue signed64
wrap64 z = signed64 (residue z)

unfoldable pub add64 : ℤ → ℤ → ℤ
add64 a b = wrap64 (a +ℤ b)

unfoldable pub sub64 : ℤ → ℤ → ℤ
sub64 a b = wrap64 (a -ℤ b)

unfoldable pub mul64 : ℤ → ℤ → ℤ
mul64 a b = wrap64 (a *ℤ b)

-- Division rounds towards zero. The quotient of -2^63 by -1 wraps; a zero divisor is the caller's.
unfoldable pub quot64 : ℤ → ℤ → ℤ
quot64 a b = wrap64 (
    sub_ℕ (pos_part a / pos_part b + neg_part a / neg_part b)
      (pos_part a / neg_part b + neg_part a / pos_part b))

abbrev pub eqb_ℤ : ℤ → ℤ → Bool
eqb_ℤ a b = (pos_part a + neg_part b) == (pos_part b + neg_part a)

abbrev pub InRange : ℤ → Type 0
InRange z = (negsuc (2 ^ 63 - 1) ≤ℤ z) × (z <ℤ pos (2 ^ 63))

pub wrap64-InRange : (z : ℤ) → InRange (wrap64 z)
unfolding wrap64
wrap64-InRange z = ground arith

pub wrap64_id : (z : ℤ) → InRange z → wrap64 z ≡ z
unfolding wrap64
wrap64_id z h = ground arith

pub residue-wrap64 : (z : ℤ) → residue (wrap64 z) ≡ residue z
unfolding wrap64
residue-wrap64 z = ground arith

pub residue-+ℤ : (a b : ℤ) → residue (a +ℤ b) ≡ (residue a + residue b) % word_size
unfolding residue
residue-+ℤ a b = omega int_laws

pub residue-injective : (a b : ℤ) → InRange a → InRange b → residue a ≡ residue b → a ≡ b
unfolding residue
residue-injective a b ra rb e = ground arith

-- Where the exact result fits, the wrapping operation gives it.
pub add64_exact : (a b : ℤ) → InRange (a +ℤ b) → add64 a b ≡ a +ℤ b
unfolding add64
add64_exact a b h = wrap64_id (a +ℤ b) h

pub sub64_exact : (a b : ℤ) → InRange (a -ℤ b) → sub64 a b ≡ a -ℤ b
unfolding sub64
sub64_exact a b h = wrap64_id (a -ℤ b) h

pub wrap64-wrap64_left : (a b : ℤ) → wrap64 (wrap64 a +ℤ b) ≡ wrap64 (a +ℤ b)
wrap64-wrap64_left a b = residue-injective _ _ (wrap64-InRange _) (wrap64-InRange _) (
    cc (
      residue-wrap64 (wrap64 a +ℤ b),
      residue-wrap64 (a +ℤ b),
      residue-+ℤ (wrap64 a) b,
      residue-+ℤ a b,
      residue-wrap64 a,
    ))

quot64_truncates : quot64 (negsuc 6) (pos 2) ≡ negsuc 2
unfolding quot64 wrap64
quot64_truncates = refl

add64_wraps : add64 (pos (2 ^ 63 - 1)) (pos 1) ≡ negsuc (2 ^ 63 - 1)
unfolding add64 wrap64 ◌+ℤ◌
add64_wraps = refl

-- Products and quotients of numbers that are not negative, where the product fits.
pub mul64_pos : (a b : ℕ) → a * b < 2 ^ 63 → mul64 (pos a) (pos b) ≡ pos (a * b)
unfolding mul64 ◌*ℤ◌
mul64_pos a b h =
    let plain : pos a *ℤ pos b ≡ pos (a * b) = ground arith in
    ap wrap64 plain ∙ wrap64_id (pos (a * b)) (omega arith)

pub quot64_pos : (a b : ℕ) → a < 2 ^ 63 → quot64 (pos a) (pos b) ≡ pos (a / b)
unfolding quot64
quot64_pos a b h =
    let plain : sub_ℕ (a / b + 0 / 0) (a / 0 + 0 / b) ≡ pos (a / b) = ground arith in
    ap wrap64 plain ∙ wrap64_id (pos (a / b)) (omega (arith, div-le_self a b))

pub sub64_pos : (a b : ℕ) → b ≤ a → a < 2 ^ 63 → sub64 (pos a) (pos b) ≡ pos (a - b)
sub64_pos a b h small =
    let plain : pos a -ℤ pos b ≡ pos (a - b) = omega int_laws in
    sub64_exact (pos a) (pos b) (rw plain (omega arith)) ∙ plain
