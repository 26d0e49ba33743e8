-- ===== src/Ledger/Block/Reward.antt =====
-- The fees and the fixed reward that AddBlockWithTxs pays to the validator.
use hyperlux_chain.Prelude.{
  ◌^◌, ◌≡◌, refl, ap, ◌∙◌, List, [], ◌∷◌, ◌++◌, All, arith, Bool-cases, inl, inr, is_empty,
}
use hyperlux_chain.Prelude.Int.{ℤ, pos, ◌+ℤ◌, ◌≤ℤ◌, ◌<ℤ◌, eq_le, eq_of_parts, int_laws}
use hyperlux_chain.Prelude.Word64.{add64, add64_exact}
use hyperlux_chain.Prelude.Dict.{
  get, insert, total, total-deposit, total_nonneg, get_nonneg, get-le-total,
}
use hyperlux_chain.Prelude.Str.{Str}
use hyperlux_chain.Primitives.{Primitives}
use hyperlux_chain.Ledger.Types.{Transaction, ValidatorDef, State}
use hyperlux_chain.Ledger.Storage.{save_all_data}
use hyperlux_chain.Ledger.Batch.Conservation.{IsPlain, IsSound, fees}
use hyperlux_chain.Ledger.Block.{with_genesis, total_fees, new_block, add_block_with_txs}
use hyperlux_chain.Ledger.Batch.Refinement.{only_at, add_at}

fees_nonneg : (txs : List Transaction) → All IsPlain txs → pos 0 ≤ℤ fees txs
unfolding fees
fees_nonneg [] h = omega arith
fees_nonneg (tx ∷ txs) h = omega (int_laws, fees_nonneg txs h.1)

-- The sum that the source accumulates is exact where it fits.
total_fees-fees :
    (txs : List Transaction) (acc : ℤ)
    → All IsPlain txs
    → pos 0 ≤ℤ acc
    → acc +ℤ fees txs <ℤ pos (2 ^ 63)
    → total_fees acc txs ≡ acc +ℤ fees txs
unfolding fees total_fees
total_fees-fees [] acc h p room = omega int_laws
total_fees-fees (tx ∷ txs) acc h p room =
    let some_left = fees_nonneg txs h.1 in
    let exact = add64_exact acc tx.fee (omega int_laws) in
    rw exact (
      omega (
        int_laws,
        eq_le (total_fees-fees txs (acc +ℤ tx.fee) h.1 (omega int_laws) (omega int_laws)),
      ))

with_genesis-balances :
    (c : Primitives) (now : ℤ) (s : State) → (with_genesis c now s).balances ≡ s.balances
unfolding with_genesis
with_genesis-balances c now s = elim (Bool-cases (is_empty s.blockchain)) [
  | inl e ↦ rw e
  | inr e ↦ rw e
]

-- The balances after the block: the proposer's is more by the fees and the reward, exactly.
pub add_block_with_txs-balances :
    (c : Primitives) (now0 now1 : ℤ) (val : ValidatorDef) (txs : List Transaction) (s : State)
    → All IsPlain txs
    → IsSound s.balances
    → total s.balances +ℤ fees txs +ℤ pos 5 <ℤ pos (2 ^ 63)
    → (add_block_with_txs c now0 now1 val txs s).1.balances
      ≡ insert val.address (add64 (get val.address s.balances) (fees txs +ℤ pos 5)) s.balances
unfolding add_block_with_txs save_all_data
add_block_with_txs-balances c now0 now1 val txs s plain h room =
    let fee_sum = fees_nonneg txs plain in
    let held = total_nonneg s.balances h.0 in
    let sum = total_fees-fees txs (pos 0) plain (omega int_laws) (omega int_laws) in
    let reward : add64 (total_fees (pos 0) txs) (pos 5) ≡ fees txs +ℤ pos 5 =
      ap (λ f. add64 f (pos 5)) (sum ∙ eq_of_parts (pos 0 +ℤ fees txs) (fees txs) (omega int_laws))
      ∙ add64_exact (fees txs) (pos 5) (omega int_laws) in
    rw (reward, with_genesis-balances c now0 s) refl

-- What a block pays in total.
pub add_block_with_txs-total :
    (c : Primitives) (now0 now1 : ℤ) (val : ValidatorDef) (txs : List Transaction) (s : State)
    → All IsPlain txs
    → IsSound s.balances
    → total s.balances +ℤ fees txs +ℤ pos 5 <ℤ pos (2 ^ 63)
    → let s' = (add_block_with_txs c now0 now1 val txs s).1 in
      IsSound s'.balances × (total s'.balances ≡ total s.balances +ℤ (fees txs +ℤ pos 5))
add_block_with_txs-total c now0 now1 val txs s plain h room =
    let fee_sum = fees_nonneg txs plain in
    let paid =
      total-deposit val.address (fees txs +ℤ pos 5) s.balances h.0 (omega int_laws)
        (omega int_laws) in
    rw (add_block_with_txs-balances c now0 now1 val txs s plain h room)
      ((paid.0, omega (int_laws, eq_le paid.1)), paid.1)

-- What a block pays to each account.
pub add_block_with_txs-paid :
    (c : Primitives) (now0 now1 : ℤ) (val : ValidatorDef) (txs : List Transaction) (s : State)
    → All IsPlain txs
    → IsSound s.balances
    → total s.balances +ℤ fees txs +ℤ pos 5 <ℤ pos (2 ^ 63)
    → (k : Str)
    → get k (add_block_with_txs c now0 now1 val txs s).1.balances
      ≡ get k s.balances +ℤ only_at val.address k (fees txs +ℤ pos 5)
add_block_with_txs-paid c now0 now1 val txs s plain h room k =
    let fee_sum = fees_nonneg txs plain in
    let exact = add64_exact (get val.address s.balances) (fees txs +ℤ pos 5) (
      omega (
        int_laws,
        get_nonneg val.address s.balances h.0,
        get-le-total val.address s.balances h.0,
      )) in
    ap (get k) (add_block_with_txs-balances c now0 now1 val txs s plain h room)
    ∙ ap (λ z. get k (insert val.address z s.balances)) exact
    ∙ add_at val.address k (fees txs +ℤ pos 5) s.balances

-- The chain before the new block is the one in memory, or a genesis block.
pub with_genesis-blockchain :
    (c : Primitives) (now : ℤ) (s t : State)
    → s.blockchain ≡ t.blockchain
    → (with_genesis c now s).blockchain ≡ (with_genesis c now t).blockchain
unfolding with_genesis
with_genesis-blockchain c now s t e = elim (Bool-cases (is_empty t.blockchain)) [
  | inl b ↦ rw (e, b) refl
  | inr b ↦ rw (e, b) refl
]

pub add_block_with_txs-nonce_table :
    (c : Primitives) (now0 now1 : ℤ) (val : ValidatorDef) (txs : List Transaction) (s : State)
    → (add_block_with_txs c now0 now1 val txs s).1.nonce_table ≡ s.nonce_table
unfolding add_block_with_txs save_all_data with_genesis
add_block_with_txs-nonce_table c now0 now1 val txs s = elim (Bool-cases (is_empty s.blockchain)) [
  | inl e ↦ rw e
  | inr e ↦ rw e
]

-- One block is appended, which holds the transactions.
pub add_block_with_txs-appended :
    (c : Primitives) (now0 now1 : ℤ) (val : ValidatorDef) (txs : List Transaction) (s : State)
    → let (b, s') = add_block_with_txs c now0 now1 val txs s in
      (s'.blockchain ≡ (with_genesis c now0 s).blockchain ++ (b ∷ [])) × (b.transactions ≡ txs)
unfolding add_block_with_txs save_all_data new_block
add_block_with_txs-appended c now0 now1 val txs s = (refl, refl)
