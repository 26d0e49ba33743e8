-- ===== src/Ledger/Block/Doubled.antt =====
-- The Merkle root of ledger/block.go with the last transaction repeated.
use hyperlux_chain.Prelude.{
  ℕ, zero, suc, ◌*◌, ◌<◌, ◌≡◌, refl, sym, ap, ◌∙◌, List, [], ◌∷◌, ◌++◌, map, length, arith,
  length-append,
}
use hyperlux_chain.Prelude.Str.{Str}
use hyperlux_chain.Primitives.{Primitives}
use hyperlux_chain.Codec.{hex_encode}
use hyperlux_chain.Ledger.Types.{Transaction}
use hyperlux_chain.Ledger.Block.{leaf, next_level, merkle_loop, compute_merkle_root, first_hash}
use hyperlux_chain.Ledger.Block.Merkle.{merkle_loop_enough, leaves-length}

map-append :
    {A : Type 0} {B : Type 0} (f : A → B) (xs ys : List A) → map f (xs ++ ys) ≡ map f xs ++ map f ys
map-append f [] ys = refl
map-append f (x ∷ xs) ys = cc (map-append f xs ys)

module _ (c : Primitives) where
  next_level-doubled :
      (n : ℕ) (hs : List Str) (x : Str)
      → length hs ≡ 2 * n
      → next_level c (hs ++ (x ∷ [])) ≡ next_level c (hs ++ (x ∷ x ∷ []))
  unfolding next_level
  next_level-doubled n [] x e = refl
  next_level-doubled n (h ∷ []) x e = absurd (omega arith)
  next_level-doubled zero (h ∷ k ∷ hs) x e = absurd (omega arith)
  next_level-doubled (suc n) (h ∷ k ∷ hs) x e =
      ap (◌∷◌ (c.sha256 (h ++ k))) (next_level-doubled n hs x (omega arith))

  merkle_loop_step :
      (f : ℕ) (zs : List Str)
      → 1 < length zs
      → merkle_loop c (suc f) zs ≡ merkle_loop c f (next_level c zs)
  unfolding merkle_loop
  merkle_loop_step f zs h = ground arith

  merkle_loop-doubled :
      (n : ℕ) (hs : List Str) (x : Str)
      → length hs ≡ 2 * suc n
      → merkle_loop c (length (hs ++ (x ∷ []))) (hs ++ (x ∷ []))
        ≡ merkle_loop c (length (hs ++ (x ∷ x ∷ []))) (hs ++ (x ∷ x ∷ []))
  merkle_loop-doubled n hs x e =
      let odd = hs ++ (x ∷ []) in
      let even = hs ++ (x ∷ x ∷ []) in
      let odd_size = length-append hs (x ∷ []) in
      let even_size = length-append hs (x ∷ x ∷ []) in
      let fuel = suc (length even) in
      merkle_loop_enough c (length odd) fuel odd (omega arith) (omega (arith, odd_size, even_size))
      ∙ merkle_loop_step (length even) odd (omega (arith, odd_size))
      ∙ ap (merkle_loop c (length even)) (next_level-doubled (suc n) hs x e)
      ∙ sym (merkle_loop_step (length even) even (omega (arith, even_size)))
      ∙ merkle_loop_enough c fuel (length even) even (omega arith) (omega arith)

  -- Three transactions or more, of an odd number, have the Merkle root that they have with the last
  -- one repeated.
  pub compute_merkle_root-doubled :
      (n : ℕ) (txs : List Transaction) (tx : Transaction)
      → length txs ≡ 2 * suc n
      → compute_merkle_root c (txs ++ (tx ∷ [])) ≡ compute_merkle_root c (txs ++ (tx ∷ tx ∷ []))
  unfolding compute_merkle_root
  compute_merkle_root-doubled n [] tx e = absurd (omega arith)
  compute_merkle_root-doubled n (t ∷ ts) tx e =
      let same =
        merkle_loop-doubled n (map (leaf c) (t ∷ ts)) (leaf c tx) (leaves-length c (t ∷ ts) ∙ e) in
      let odd = map-append (leaf c) ts (tx ∷ []) in
      let even = map-append (leaf c) ts (tx ∷ tx ∷ []) in
      rw (odd, even) (ap (λ hs. hex_encode (first_hash hs)) same)
