-- ===== src/Ledger/Block/Rounds.antt =====
-- How long the loop of ComputeMerkleRoot (ledger/block.go) runs.
use hyperlux_chain.Prelude.{
  ℕ, zero, suc, ◌^◌, ◌≤◌, ◌≡◌, refl, sym, ap, inl, inr, List, [], ◌∷◌, map, length, arith,
  Bool-cases, ltb,
}
use native.Mathlib.Nat.{pow-suc}
use hyperlux_chain.Prelude.Str.{Str}
use hyperlux_chain.Primitives.{Primitives}
use hyperlux_chain.Codec.{hex_encode}
use hyperlux_chain.Ledger.Types.{Transaction}
use hyperlux_chain.Ledger.Block.{leaf, next_level, merkle_loop, compute_merkle_root, first_hash}
use hyperlux_chain.Ledger.Block.Merkle.{next_level-length, leaves-length}

module _ (c : Primitives) where
  merkle_loop-one :
      (n : ℕ) (hs : List Str) → 1 ≤ length hs → length hs ≤ 2 ^ n → length (merkle_loop c n hs) ≡ 1
  unfolding merkle_loop
  merkle_loop-one zero hs low high = omega arith
  merkle_loop-one (suc n) hs low high =
      let bounds = next_level-length c hs in
      let double = pow-suc 2 n in
      elim (Bool-cases (ltb 1 (length hs))) [
        | inl more ↦ rw more (
            merkle_loop-one n (next_level c hs) (ground (arith, bounds))
              (omega (arith, bounds, double)))
        | inr stop ↦ rw stop (ground arith)
      ]

  merkle_loop-rounds :
      (n f : ℕ) (hs : List Str)
      → length hs ≤ 2 ^ n
      → length hs ≤ suc f
      → merkle_loop c n hs ≡ merkle_loop c f hs
  unfolding merkle_loop
  merkle_loop-rounds zero zero hs hn hf = refl
  merkle_loop-rounds zero (suc f) hs hn hf = ground arith
  merkle_loop-rounds (suc n) zero hs hn hf = ground arith
  merkle_loop-rounds (suc n) (suc f) hs hn hf =
      let bounds = next_level-length c hs in
      let double = pow-suc 2 n in
      elim (Bool-cases (ltb 1 (length hs))) [
        | inl more ↦ rw more (
            merkle_loop-rounds n f (next_level c hs) (omega (arith, bounds, double))
              (ground (arith, bounds)))
        | inr stop ↦ rw stop
      ]

  -- For one transaction or more, and at most 2^n of them, the loop ends after at most n rounds: one
  -- hash is left then, and it is the Merkle root.
  pub compute_merkle_root-rounds :
      (n : ℕ) (txs : List Transaction)
      → 1 ≤ length txs
      → length txs ≤ 2 ^ n
      → (length (merkle_loop c n (map (leaf c) txs)) ≡ 1)
        × (compute_merkle_root c txs ≡ hex_encode (first_hash (merkle_loop c n (map (leaf c) txs))))
  unfolding compute_merkle_root
  compute_merkle_root-rounds n [] low high = absurd (omega arith)
  compute_merkle_root-rounds n (t ∷ ts) low high =
      let hs = map (leaf c) (t ∷ ts) in
      let size = leaves-length c (t ∷ ts) in
      let high' : length hs ≤ 2 ^ n = omega (arith, size) in
      (
        merkle_loop-one n hs (omega arith) high',
        ap (λ l. hex_encode (first_hash l))
            (sym (merkle_loop-rounds n (length hs) hs high' (omega arith))),
      )
