-- ===== src/Primitives.antt =====
-- The cryptographic primitives of Go's crypto packages, which the sources call and do not
-- implement, and the sort of Go's sort package. They are arguments of the model.
use hyperlux_chain.Prelude.{◌≡◌, Bool, true, false, List, [], ◌∷◌, length}
use hyperlux_chain.Prelude.Str.{Str, IsBytes}
use mathlib.Core.List.{Permᴰ}

pub record Primitives : Type 0 where
  -- `sha256.Sum256`
  pub sha256 : Str → Str
  -- `ed25519.Sign`: private key, message
  pub ed25519_sign : Str → Str → Str
  -- the public key that belongs to a private key
  pub ed25519_public : Str → Str
  -- `ed25519.Verify` on a public key of 32 bytes: key, message, signature
  pub ed25519_check : Str → Str → Str → Bool
  -- a string as encoding/json writes it, quotes and escapes included
  pub quote : Str → Str

-- What the sources rely on: a signature made with a key verifies under its public key. The halves of
-- a private key are taken to belong together.
pub record SignatureLaws (c : Primitives) : Type 0 where
  pub sign-IsBytes : (key message : Str) → IsBytes (c.ed25519_sign key message)
  pub public-IsBytes : (key : Str) → IsBytes (c.ed25519_public key)
  pub public-length : (key : Str) → length (c.ed25519_public key) ≡ 32
  pub check-sign :
      (key message : Str)
      → c.ed25519_check (c.ed25519_public key) message (c.ed25519_sign key message) ≡ true

-- Digests are 32 bytes.
pub record DigestLaws (c : Primitives) : Type 0 where
  pub sha256-IsBytes : (message : Str) → IsBytes (c.sha256 message)
  pub sha256-length : (message : Str) → length (c.sha256 message) ≡ 32

-- Each element is not `less` than the one before it.
abbrev pub IsSortedBy : {A : Type 0} → (A → A → Bool) → List A → Type 0
IsSortedBy less [] = Unit
IsSortedBy less (x ∷ []) = Unit
IsSortedBy less (x ∷ y ∷ ys) = (less y x ≡ false) × IsSortedBy less (y ∷ ys)

-- `sort.Slice`: some sorted rearrangement. It is not stable, so equal elements may trade places.
pub record SliceSort {A : Type 0} (less : A → A → Bool) : Type 0 where
  pub sort : List A → List A
  pub sort-perm : (xs : List A) → Permᴰ xs (sort xs)
  pub sort-IsSorted : (xs : List A) → IsSortedBy less (sort xs)

-- The order in which the goroutines' jobs get on: some arrangement of the jobs.
pub record Schedule (A : Type 0) : Type 0 where
  pub arrange : List A → List A
  pub arrange-perm : (xs : List A) → Permᴰ xs (arrange xs)
