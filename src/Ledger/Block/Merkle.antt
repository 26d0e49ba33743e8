-- ===== src/Ledger/Block/Merkle.antt =====
-- What the Merkle root of ledger/block.go determines.
use hyperlux_chain.Prelude.{
  ℕ, zero, suc, ◌*◌, ◌≤◌, ◌≡◌, ◌≢◌, ◌⊎◌, inl, inr, refl, sym, ap, subst, ◌∙◌, List, [], ◌∷◌, ◌++◌,
  map, length, arith, Bool-cases, ltb,
}
use hyperlux_chain.Prelude.{All}
use hyperlux_chain.Prelude.Str.{Str, Str_discrete}
use mathlib.Core.List.{Memᴰ}
use mathlib.Core.List.Memᴰ
use hyperlux_chain.Primitives.{Primitives, DigestLaws}
use hyperlux_chain.Codec.{hex_encode, hex_decode-hex_encode, hex_encode-injective}
use hyperlux_chain.Ledger.Transaction.{hash_transaction}
use hyperlux_chain.Ledger.Types.{Transaction}
use hyperlux_chain.Ledger.Block.{leaf, next_level, merkle_loop, compute_merkle_root, first_hash}

module _ (c : Primitives) where
  -- A level is about half as long as the one below.
  pub next_level-length :
      (hs : List Str)
      → (length hs ≤ 2 * length (next_level c hs))
        × (2 * length (next_level c hs) ≤ suc (length hs))
  unfolding next_level
  next_level-length [] = omega arith
  next_level-length (x ∷ []) = omega arith
  next_level-length (x ∷ y ∷ hs) = omega (arith, next_level-length hs)

  -- With fuel for all but one of the hashes the loop ends by its own condition, so more fuel
  -- changes nothing.
  pub merkle_loop_enough :
      (f g : ℕ) (hs : List Str)
      → length hs ≤ suc f
      → length hs ≤ suc g
      → merkle_loop c f hs ≡ merkle_loop c g hs
  unfolding merkle_loop
  merkle_loop_enough zero zero hs hf hg = refl
  merkle_loop_enough zero (suc g) hs hf hg = ground arith
  merkle_loop_enough (suc f) zero hs hf hg = ground arith
  merkle_loop_enough (suc f) (suc g) hs hf hg =
      let bounds = next_level-length hs in
      elim (Bool-cases (ltb 1 (length hs))) [
        | inl more ↦ rw more (
            merkle_loop_enough f g (next_level c hs) (ground (arith, bounds))
              (ground (arith, bounds)))
        | inr done ↦ rw done
      ]

append_split : (a b x y : Str) → length a ≡ length b → a ++ x ≡ b ++ y → (a ≡ b) × (x ≡ y)
append_split [] [] x y e h = (refl, h)
append_split [] (d ∷ b) x y e h = absurd (omega arith)
append_split (d ∷ a) [] x y e h = absurd (omega arith)
append_split (d ∷ a) (d' ∷ b) x y e h =
    let rest = append_split a b x y (omega arith) (cc) in (cc, rest.1)

abbrev IsDigest : Str → Type 0
IsDigest h = length h ≡ 32

-- What is hashed to make the next level: each two neighbours, and an odd last one with itself.
unfoldable pub level_texts : List Str → List Str
level_texts [] = []
level_texts (x ∷ []) = (x ++ x) ∷ []
level_texts (x ∷ y ∷ hs) = (x ++ y) ∷ level_texts hs

-- What is hashed to reach the root from a level, in at most `f` rounds.
unfoldable pub merkle_texts : Primitives → ℕ → List Str → List Str
merkle_texts c zero hs = []
merkle_texts c (suc f) [] = []
merkle_texts c (suc f) (x ∷ []) = []
merkle_texts c (suc f) (x ∷ y ∷ hs) =
    level_texts (x ∷ y ∷ hs) ++ merkle_texts c f (next_level c (x ∷ y ∷ hs))

-- What is hashed above the leaves for the transactions' Merkle root.
unfoldable pub root_texts : Primitives → List Transaction → List Str
root_texts c txs = merkle_texts c (length txs) (map (leaf c) txs)

-- A text of each list, which differ and have the same digest.
abbrev pub Collides : Primitives → List Str → List Str → Type 0
Collides c xs ys =
    (a : Str) × (b : Str) × Memᴰ a xs × Memᴰ b ys × (a ≢ b) × (c.sha256 a ≡ c.sha256 b)

module _ (c : Primitives) where
  Collides-head :
      (a b : Str) (xs ys : List Str)
      → c.sha256 a ≡ c.sha256 b
      → (a ≡ b) ⊎ Collides c (a ∷ xs) (b ∷ ys)
  Collides-head a b xs ys h = elim (Str_discrete a b) [
    | yes e ↦ inl e
    | no ne ↦ inr (a, b, Memᴰ.head refl, Memᴰ.head refl, ne, h)
  ]

  Collides-tail : (x y : Str) (xs ys : List Str) → Collides c xs ys → Collides c (x ∷ xs) (y ∷ ys)
  Collides-tail x y xs ys (a, b, there, here, ne, h) =
      (a, b, Memᴰ.tail there, Memᴰ.tail here, ne, h)

  Collides-left : (xs ys xs' ys' : List Str) → Collides c xs ys → Collides c (xs ++ xs') (ys ++ ys')
  Collides-left xs ys xs' ys' (a, b, there, here, ne, h) =
      (a, b, Memᴰ.append_left xs' there, Memᴰ.append_left ys' here, ne, h)

  Collides-right :
      (xs ys xs' ys' : List Str) → Collides c xs' ys' → Collides c (xs ++ xs') (ys ++ ys')
  Collides-right xs ys xs' ys' (a, b, there, here, ne, h) =
      (a, b, Memᴰ.append_right xs there, Memᴰ.append_right ys here, ne, h)

  -- A level determines the level below, or two texts hashed for it collide.
  next_level-binds :
      (hs gs : List Str)
      → All IsDigest hs
      → All IsDigest gs
      → length hs ≡ length gs
      → next_level c hs ≡ next_level c gs
      → (hs ≡ gs) ⊎ Collides c (level_texts hs) (level_texts gs)
  unfolding next_level level_texts
  next_level-binds [] [] hh hg e q = inl refl
  next_level-binds [] (g ∷ gs) hh hg e q = absurd (omega arith)
  next_level-binds (h ∷ hs) [] hh hg e q = absurd (omega arith)
  next_level-binds (h ∷ []) (g ∷ []) hh hg e q = elim (Collides-head (h ++ h) (g ++ g) [] [] (cc)) [
    | inl t ↦ inl (ap (λ z. z ∷ []) ((append_split h g h g (hh.0 ∙ sym hg.0) t).0))
    | inr col ↦ inr col
  ]
  next_level-binds (h ∷ []) (g ∷ g' ∷ gs) hh hg e q = absurd (omega arith)
  next_level-binds (h ∷ h' ∷ hs) (g ∷ []) hh hg e q = absurd (omega arith)
  next_level-binds (h ∷ h' ∷ hs) (g ∷ g' ∷ gs) hh hg e q =
      let xs = level_texts hs in
      let ys = level_texts gs in
      elim (next_level-binds hs gs hh.1.1 hg.1.1 (omega arith) (cc)) [
        | inr col ↦ inr (Collides-tail (h ++ h') (g ++ g') xs ys col)
        | inl rest ↦ elim (Collides-head (h ++ h') (g ++ g') xs ys (cc)) [
          | inr col ↦ inr col
          | inl t ↦
              let halves = append_split h g h' g' (hh.0 ∙ sym hg.0) t in
              inl (cc (halves.0, halves.1, rest))
        ]
      ]

pub leaves-length :
    (c : Primitives) (txs : List Transaction) → length (map (leaf c) txs) ≡ length txs
leaves-length c [] = refl
leaves-length c (tx ∷ txs) = omega (arith, leaves-length c txs)

module _ (c : Primitives) (laws : DigestLaws c) where
  next_level-IsDigest : (hs : List Str) → All IsDigest (next_level c hs)
  unfolding next_level
  next_level-IsDigest [] = tt
  next_level-IsDigest (x ∷ []) = (laws.sha256-length (x ++ x), tt)
  next_level-IsDigest (x ∷ y ∷ hs) = (laws.sha256-length (x ++ y), next_level-IsDigest hs)

  merkle_loop-binds :
      (f : ℕ) (hs gs : List Str)
      → All IsDigest hs
      → All IsDigest gs
      → length hs ≡ length gs
      → 1 ≤ length hs
      → length hs ≤ suc f
      → first_hash (merkle_loop c f hs) ≡ first_hash (merkle_loop c f gs)
      → (hs ≡ gs) ⊎ Collides c (merkle_texts c f hs) (merkle_texts c f gs)
  unfolding merkle_loop merkle_texts
  merkle_loop-binds f [] gs hh hg e low high q = absurd (omega arith)
  merkle_loop-binds f (h ∷ hs) [] hh hg e low high q = absurd (omega arith)
  merkle_loop-binds zero (h ∷ []) (g ∷ []) hh hg e low high q = inl (ap (λ z. z ∷ []) q)
  merkle_loop-binds zero (h ∷ h' ∷ hs) (g ∷ gs) hh hg e low high q = absurd (omega arith)
  merkle_loop-binds zero (h ∷ []) (g ∷ g' ∷ gs) hh hg e low high q = absurd (omega arith)
  merkle_loop-binds (suc f) (h ∷ []) (g ∷ []) hh hg e low high q = inl (ap (λ z. z ∷ []) q)
  merkle_loop-binds (suc f) (h ∷ []) (g ∷ g' ∷ gs) hh hg e low high q = absurd (omega arith)
  merkle_loop-binds (suc f) (h ∷ h' ∷ hs) (g ∷ []) hh hg e low high q = absurd (omega arith)
  merkle_loop-binds (suc f) (h ∷ h' ∷ hs) (g ∷ g' ∷ gs) hh hg e low high q =
      let lower = h ∷ h' ∷ hs in
      let other = g ∷ g' ∷ gs in
      let bounds = next_level-length c lower in
      let bounds' = next_level-length c other in
      let texts = level_texts lower in
      let texts' = level_texts other in
      let above = merkle_texts c f (next_level c lower) in
      let above' = merkle_texts c f (next_level c other) in
      elim (merkle_loop-binds f (next_level c lower) (next_level c other)
        (next_level-IsDigest lower) (next_level-IsDigest other) (omega (arith, bounds, bounds'))
        (omega (arith, bounds)) (omega (arith, bounds)) (ground (arith, q))) [
          | inr col ↦ inr (Collides-right c texts texts' above above' col)
          | inl same ↦ elim (next_level-binds c lower other hh hg e same) [
            | inr col ↦ inr (Collides-left c texts texts' above above' col)
            | inl below ↦ inl below
          ]
        ]

  decode_hash : (tx : Transaction) → hash_transaction c tx ≡ hex_encode (leaf c tx)
  unfolding leaf hash_transaction
  decode_hash tx = ap (λ z. hex_encode z.0) (sym (hex_decode-hex_encode _ (laws.sha256-IsBytes _)))

  leaf-IsDigest : (tx : Transaction) → IsDigest (leaf c tx)
  unfolding leaf hash_transaction
  leaf-IsDigest tx =
      ap (λ z. length z.0) (hex_decode-hex_encode _ (laws.sha256-IsBytes _)) ∙ laws.sha256-length _

  leaves-IsDigest : (txs : List Transaction) → All IsDigest (map (leaf c) txs)
  leaves-IsDigest [] = tt
  leaves-IsDigest (tx ∷ txs) = (leaf-IsDigest tx, leaves-IsDigest txs)

  hashes_of_leaves :
      (txs : List Transaction) → map (hash_transaction c) txs ≡ map hex_encode (map (leaf c) txs)
  hashes_of_leaves [] = refl
  hashes_of_leaves (tx ∷ txs) = cc (decode_hash tx, hashes_of_leaves txs)

  -- When every digest is 32 bytes long, two lists of equally many transactions with the same
  -- Merkle root have the same transaction hashes in the same order, or a text hashed above the
  -- leaves for the one root and a different text hashed for the other have the same sha256 digest.
  pub compute_merkle_root-binds :
      (txs us : List Transaction)
      → length txs ≡ length us
      → compute_merkle_root c txs ≡ compute_merkle_root c us
      → (map (hash_transaction c) txs ≡ map (hash_transaction c) us)
        ⊎ Collides c (root_texts c txs) (root_texts c us)
  unfolding compute_merkle_root root_texts
  compute_merkle_root-binds [] [] e q = inl refl
  compute_merkle_root-binds [] (u ∷ us) e q = absurd (omega arith)
  compute_merkle_root-binds (t ∷ ts) [] e q = absurd (omega arith)
  compute_merkle_root-binds (t ∷ ts) (u ∷ us) e q =
      let lower = map (leaf c) (t ∷ ts) in
      let other = map (leaf c) (u ∷ us) in
      let size : length lower ≡ length (t ∷ ts) = leaves-length c (t ∷ ts) in
      let size' : length other ≡ length (t ∷ ts) = leaves-length c (u ∷ us) ∙ sym e in
      let root = hex_encode-injective _ _ q in
      elim (merkle_loop-binds (length (t ∷ ts)) lower other (leaves-IsDigest (t ∷ ts))
        (leaves-IsDigest (u ∷ us)) (size ∙ sym size') (omega arith) (omega (arith, size))
        (ap (λ n. first_hash (merkle_loop c n lower)) (sym size)
          ∙ root
          ∙ ap (λ n. first_hash (merkle_loop c n other)) size')) [
            | inr col ↦ inr (
                subst
                  (λ n.
                    Collides c (merkle_texts c (length (t ∷ ts)) lower) (merkle_texts c n other))
                  e col)
            | inl h ↦ inl (
                hashes_of_leaves (t ∷ ts) ∙ ap (map hex_encode) h ∙ sym (hashes_of_leaves (u ∷ us)))
          ]
