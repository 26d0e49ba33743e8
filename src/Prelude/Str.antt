-- ===== src/Prelude/Str.antt =====
-- Go strings and byte slices: lists of bytes.
use Prim.Native.Char.{code}
use Prim.Native.String.{String}
use Prim.Native.Nat.{ℕ, zero, suc, ◌+◌, ◌<◌}
use package.hyperlux_chain.Prelude.Lists.{All}
use mathlib.Core.List.{List, [], ◌∷◌, ◌++◌}
use mathlib.Core.Bool.{Bool, true, false, ◌&&◌}
use package.hyperlux_chain.Prelude.Tests.{leb, ◌==◌, if◌then◌else◌}
use mathlib.Core.Path.{◌≡◌, refl}
use mathlib.Core.Logic.{ite}
use native.Mathlib.Decide.{ℕ_discrete}

abbrev pub Str : Type 0
Str = List ℕ

cons_dec : {c d : ℕ} {s t : Str} → Dec (c ≡ d) → Dec (s ≡ t) → Dec (c ∷ s ≡ d ∷ t)
cons_dec (yes p) (yes q) = yes (cc)
cons_dec (yes p) (no q) = no (λ e. q (cc))
cons_dec (no p) _ = no (λ e. p (cc))

-- `a == b`
unfoldable pub Str_discrete : Discrete Str
unfolding ℕ_discrete cons_dec
Str_discrete [] [] = yes refl
Str_discrete [] (d ∷ t) = no (λ e. cc)
Str_discrete (c ∷ s) [] = no (λ e. cc)
Str_discrete (c ∷ s) (d ∷ t) = cons_dec (ℕ_discrete c d) (Str_discrete s t)

-- The bytes of an ASCII literal.
abbrev pub codes : String → Str
codes String.[] = []
codes (String.◌∷◌ c s) = code c ∷ codes s

abbrev pub IsBytes : Str → Type 0
IsBytes = All (λ b. b < 256)

abbrev starts_with : Str → Str → Bool
starts_with [] t = true
starts_with (b ∷ s) [] = false
starts_with (b ∷ s) (d ∷ t) = b == d && starts_with s t

-- The lower-case byte for a letter that begins with `b`, and how many more bytes the letter has.
-- Outside ASCII, only U+0130 and U+212A (the Kelvin sign) become ASCII letters.
abbrev lower_letter : ℕ → Str → ℕ × ℕ
lower_letter b s =
    if b == 196 && starts_with (176 ∷ []) s
    then (b'i', 1)
    else if b == 226 && starts_with (132 ∷ 170 ∷ []) s
    then (b'k', 2)
    else if leb b'A' b && leb b b'Z'
    then (b + 32, 0)
    else (b, 0)

unfoldable lower_after : ℕ → Str → Str
lower_after n [] = []
lower_after (suc n) (b ∷ s) = lower_after n s
lower_after zero (b ∷ s) = let (d, n) = lower_letter b s in d ∷ lower_after n s

-- `strings.ToLower`, but for the letters whose lower-case form is not in ASCII either, which are
-- left as they are: the program compares the result with ASCII names only.
unfoldable pub to_lower : Str → Str
unfolding lower_after
to_lower = lower_after 0

to_lower_test : to_lower (codes "Val" ++ (196 ∷ 176 ∷ codes "dator")) ≡ codes "validator"
unfolding to_lower
to_lower_test = refl

abbrev pub equals : Str → Str → Bool
equals s t = ite (Str_discrete s t) true false

Str_discrete_test :
    ite (Str_discrete (codes "ab") (codes "ab")) 1 2
      + ite (Str_discrete (codes "ab") (codes "ac")) 1 2
    ≡ 3
unfolding Str_discrete
Str_discrete_test = refl
