-- ===== src/Ledger/Block.antt =====
-- ledger/block.go: the Merkle root, the header's hash, and the functions that append a block.
pub mod Merkle
pub mod Doubled
pub mod Chain
pub mod Rounds
pub mod Reward
use hyperlux_chain.Prelude.{
  ℕ, zero, suc, Bool, true, false, Option, none, some, List, [], ◌∷◌, ◌++◌, map, length, is_empty,
  if◌then◌else◌, ltb,
}
use hyperlux_chain.Prelude.Int.{ℤ, pos}
use hyperlux_chain.Prelude.Word64.{add64}
use hyperlux_chain.Prelude.Str.{Str, codes}
use hyperlux_chain.Prelude.Dict.{insert, get}
use hyperlux_chain.Primitives.{Primitives}
use hyperlux_chain.Codec.{show_ℤ, hex_encode, hex_decode}
use hyperlux_chain.Ledger.Types.{Transaction, Block, ValidatorDef, Wallet, State}
use hyperlux_chain.Ledger.Transaction.{hash_transaction}
use hyperlux_chain.Ledger.Mempool.{mempool_snapshot, clear_mempool}
use hyperlux_chain.Ledger.Storage.{save_all_data}
use hyperlux_chain.Ledger.Validators.{unix}

-- The bytes of a transaction's hash; the error of `hex.DecodeString` is dropped.
unfoldable pub leaf : Primitives → Transaction → Str
leaf c tx = (hex_decode (hash_transaction c tx)).0

-- One level of the tree: neighbours are hashed in pairs, a last one alone with itself.
unfoldable pub next_level : Primitives → List Str → List Str
next_level c [] = []
next_level c (x ∷ []) = c.sha256 (x ++ x) ∷ []
next_level c (x ∷ y ∷ hs) = c.sha256 (x ++ y) ∷ next_level c hs

-- `for len(hashes) > 1`, at most as often as the fuel says.
unfoldable pub merkle_loop : Primitives → ℕ → List Str → List Str
merkle_loop c zero hs = hs
merkle_loop c (suc fuel) hs =
    let rest = merkle_loop c fuel (next_level c hs) in if ltb 1 (length hs) then rest else hs

-- `hashes[0]` of a list that is not empty.
abbrev pub first_hash : List Str → Str
first_hash [] = []
first_hash (h ∷ hs) = h

unfoldable pub compute_merkle_root : Primitives → List Transaction → Str
unfolding merkle_loop
compute_merkle_root c txs =
    let hashes = map (leaf c) txs in
    if is_empty txs then [] else hex_encode (first_hash (merkle_loop c (length hashes) hashes))

-- `fmt.Sprintf("%d|%d|%s|%s|%s", …)` and its hash.
unfoldable pub hash_block_header : Primitives → ℤ → ℤ → Str → Str → Str → Str
hash_block_header c idx ts prev merkle proposer =
    let header =
      show_ℤ idx
      ++ (b'|' ∷ (show_ℤ ts ++ (b'|' ∷ (prev ++ (b'|' ∷ (merkle ++ (b'|' ∷ proposer))))))) in
    hex_encode (c.sha256 header)

abbrev pub proposer_of : Option Wallet → Str
proposer_of none = []
proposer_of (some w) = w.address_ed

-- The clock reading is the third argument.
unfoldable pub new_block : Primitives → ℤ → ℤ → List Transaction → Str → Option Wallet → Block
unfolding compute_merkle_root hash_block_header unix
new_block c now index txs prev_hash proposer_wallet =
    let ts = unix now in
    let proposer = proposer_of proposer_wallet in
    let mr = compute_merkle_root c txs in
    record {
      index = index;
      timestamp = ts;
      prev_hash = prev_hash;
      hash = hash_block_header c index ts prev_hash mr proposer;
      merkle_root = mr;
      proposer = proposer;
      transactions = txs;
    }

unfoldable pub genesis : Primitives → ℤ → Block
unfolding new_block
genesis c now = new_block c now (pos 0) [] (codes "0") none

-- `if len(Blockchain) == 0`
unfoldable pub with_genesis : Primitives → ℤ → State → State
with_genesis c now s =
    if is_empty s.blockchain then record s { blockchain = genesis c now ∷ [] } else s

-- `Blockchain[len(Blockchain)-1].Hash` of a chain that is not empty.
abbrev pub last_hash : Str → List Block → Str
last_hash prev [] = prev
last_hash prev (b ∷ bs) = last_hash b.hash bs

-- The wallet may be `nil`. The clock is read for a genesis block first, if one is made, and then for the new block.
unfoldable pub add_block : Primitives → ℤ → ℤ → Option Wallet → State → Block × State
unfolding with_genesis new_block
add_block c now0 now1 val_wallet s =
    let s1 = with_genesis c now0 s in
    let txs = mempool_snapshot s1 in
    let b =
      new_block c now1 (pos (length s1.blockchain)) txs (last_hash [] s1.blockchain) val_wallet in
    (b, save_all_data (clear_mempool (record s1 { blockchain = s1.blockchain ++ (b ∷ []) })))

-- `totalFees`
unfoldable pub total_fees : ℤ → List Transaction → ℤ
total_fees acc [] = acc
total_fees acc (tx ∷ txs) = total_fees (add64 acc tx.fee) txs

-- The wallet of the proposer is an argument that the source ignores.
unfoldable pub add_block_with_txs :
    Primitives → ℤ → ℤ → ValidatorDef → List Transaction → State → Block × State
unfolding with_genesis new_block total_fees
add_block_with_txs c now0 now1 val txs s =
    let s1 = with_genesis c now0 s in
    let b = new_block c now1 (pos (length s1.blockchain)) txs (last_hash [] s1.blockchain) none in
    let reward = add64 (total_fees (pos 0) txs) (pos 5) in
    (
      b,
      save_all_data (record s1 {
        blockchain = s1.blockchain ++ (b ∷ []);
        balances = insert val.address (add64 (get val.address s1.balances) reward) s1.balances;
      }),
    )
