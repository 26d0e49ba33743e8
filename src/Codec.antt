-- ===== src/Codec.antt =====
-- The parts of Go's standard library by which the sources build texts: decimal numbers as `%d`
-- prints them (fmt), and lower-case hexadecimal (encoding/hex).
use hyperlux_chain.Prelude.{
  ℕ, zero, suc, ◌+◌, ◌-◌, ◌*◌, ◌/◌, ◌%◌, ◌<◌, ◌≡◌, refl, Bool, true, false, ◌&&◌, Option, none,
  some, [], ◌∷◌, arith, ltb, leb, if◌then◌else◌,
}
use hyperlux_chain.Prelude.Int.{ℤ, pos, negsuc}
use hyperlux_chain.Prelude.Str.{Str, IsBytes, codes}

-- The digits of `n` before those already printed. The fuel bounds the number of digits.
show_digits : ℕ → ℕ → Str → Str
show_digits zero n out = out
show_digits (suc fuel) n out =
    let digit = b'0' + n % 10 in
    let rest = show_digits fuel (n / 10) (digit ∷ out) in if ltb n 10 then digit ∷ out else rest

unfoldable pub show_ℕ : ℕ → Str
unfolding show_digits
show_ℕ n = show_digits (suc n) n []

-- `%d`
unfoldable pub show_ℤ : ℤ → Str
unfolding show_ℕ
show_ℤ (pos n) = show_ℕ n
show_ℤ (negsuc n) = b'-' ∷ show_ℕ (suc n)

hex_digit : ℕ → ℕ
hex_digit d = if ltb d 10 then b'0' + d else b'a' + (d - 10)

-- `hex.EncodeToString`
unfoldable pub hex_encode : Str → Str
unfolding hex_digit
hex_encode [] = []
hex_encode (b ∷ bs) = hex_digit (b / 16) ∷ hex_digit (b % 16) ∷ hex_encode bs

hex_value : ℕ → Option ℕ
hex_value c =
    if leb b'0' c && leb c b'9'
    then some (c - b'0')
    else if leb b'a' c && leb c b'f'
    then some (c - b'a' + 10)
    else if leb b'A' c && leb c b'F'
    then some (c - b'A' + 10)
    else none

hex_pair : Option ℕ → Option ℕ → Option ℕ
hex_pair (some h) (some l) = some (h * 16 + l)
hex_pair _ _ = none

-- One more byte in front of what the rest gives, or the end at a bad pair.
hex_push : Option ℕ → Str × Bool → Str × Bool
hex_push none rest = ([], false)
hex_push (some b) (bs, fine) = (b ∷ bs, fine)

-- `hex.DecodeString`: the bytes before the first fault, and whether there was none.
unfoldable pub hex_decode : Str → Str × Bool
unfolding hex_value hex_pair hex_push
hex_decode [] = ([], true)
hex_decode (c ∷ []) = ([], false)
hex_decode (c ∷ d ∷ cs) = hex_push (hex_pair (hex_value c) (hex_value d)) (hex_decode cs)

show_ℤ_example : show_ℤ (negsuc 1204) ≡ codes "-1205"
unfolding show_ℤ
show_ℤ_example = refl

hex_decode_example : hex_decode (hex_encode (0 ∷ 171 ∷ 255 ∷ [])) ≡ (0 ∷ 171 ∷ 255 ∷ [], true)
unfolding hex_decode hex_encode
hex_decode_example = refl

hex_decode_fault : hex_decode (codes "0aBx1") ≡ (10 ∷ [], false)
unfolding hex_decode
hex_decode_fault = refl

hex_digit_value : (d : ℕ) → d < 16 → hex_value (hex_digit d) ≡ some d
unfolding hex_value hex_digit
hex_digit_value d h = ground arith

-- Decoding gives back every byte string that was encoded.
pub hex_decode-hex_encode : (bs : Str) → IsBytes bs → hex_decode (hex_encode bs) ≡ (bs, true)
unfolding hex_decode hex_encode
hex_decode-hex_encode [] h = refl
hex_decode-hex_encode (b ∷ bs) h =
    rw (hex_digit_value (b / 16) (omega arith), hex_digit_value (b % 16) (omega arith))
      (rw (hex_decode-hex_encode bs h.1) (ground arith))

hex_digit-injective : (d e : ℕ) → hex_digit d ≡ hex_digit e → d ≡ e
unfolding hex_digit
hex_digit-injective d e h = ground arith

pub hex_encode-injective : (bs cs : Str) → hex_encode bs ≡ hex_encode cs → bs ≡ cs
unfolding hex_encode
hex_encode-injective [] [] h = refl
hex_encode-injective [] (c ∷ cs) h = cc
hex_encode-injective (b ∷ bs) [] h = cc
hex_encode-injective (b ∷ bs) (c ∷ cs) h =
    let high = hex_digit-injective (b / 16) (c / 16) (cc) in
    let low = hex_digit-injective (b % 16) (c % 16) (cc) in
    let same : b ≡ c = omega (arith, high, low) in cc (same, hex_encode-injective bs cs (cc))
