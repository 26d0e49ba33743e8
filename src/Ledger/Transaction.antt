-- ===== src/Ledger/Transaction.antt =====
-- ledger/transaction.go: making, checking, hashing and admitting one transaction.
pub mod Signing
use hyperlux_chain.Prelude.{
  ◌≡◌, Bool, true, false, not, ◌&&◌, Option, none, some, List, [], ◌∷◌, ◌++◌, length, if◌then◌else◌,
  ◌==◌,
}
use mathlib.Core.Option
use hyperlux_chain.Prelude.Int.{ℤ, pos, ltb_ℤ}
use hyperlux_chain.Prelude.Word64.{add64, mul64, eqb_ℤ}
use hyperlux_chain.Prelude.Str.{Str, codes}
use hyperlux_chain.Prelude.Dict.{get}
use hyperlux_chain.Primitives.{Primitives}
use hyperlux_chain.Codec.{show_ℤ, hex_encode, hex_decode}
use hyperlux_chain.Ledger.Types.{Transaction, Wallet, State}

-- `fmt.Sprintf("%s|%s|%d|%d", …)`
unfoldable pub signing_data : Str → Str → ℤ → ℤ → Str
signing_data from to amount nonce =
    from ++ (b'|' ∷ (to ++ (b'|' ∷ (show_ℤ amount ++ (b'|' ∷ show_ℤ nonce)))))

-- `json.Marshal` of a transaction.
unfoldable pub encode_transaction : Primitives → Transaction → Str
encode_transaction c tx =
    codes "{\"from\":"
    ++ (c.quote tx.from
        ++ (codes ",\"to\":"
            ++ (c.quote tx.to
                ++ (codes ",\"amount\":"
                    ++ (show_ℤ tx.amount
                        ++ (codes ",\"fee\":"
                            ++ (show_ℤ tx.fee
                                ++ (codes ",\"nonce\":"
                                    ++ (show_ℤ tx.nonce
                                        ++ (codes ",\"signature\":"
                                            ++ (c.quote tx.signature
                                                ++ (codes ",\"pubkey\":"
                                                    ++ (c.quote tx.pub_key ++ codes "}")))))))))))))

unfoldable pub calculate_fee : Primitives → Transaction → ℤ
calculate_fee c tx =
    let size = pos (length (encode_transaction c tx)) in
    let fee_per_byte = pos 1 in mul64 size fee_per_byte

unfoldable pub get_next_nonce : Str → State → ℤ
get_next_nonce addr s = add64 (get addr s.nonce_table) (pos 1)

-- `w.SignEd(data)`. `ed25519.Sign` panics, here `none`, on a private key that has not 64 bytes.
unfoldable pub sign_ed : Primitives → Wallet → Str → Option Str
sign_ed c w message =
    if length w.priv_ed == 64 then some (c.ed25519_sign w.priv_ed message) else none

-- The transaction of `NewTransaction`, from its nonce and its signature on.
signed_transaction : Primitives → Wallet → Str → ℤ → ℤ → Str → Transaction
signed_transaction c w to amount nonce sig =
    let tx : Transaction = record {
      from = w.address_ed;
      to = to;
      amount = amount;
      fee = pos 0;
      nonce = nonce;
      signature = hex_encode sig;
      pub_key = hex_encode w.pub_ed;
    } in
    record tx { fee = calculate_fee c tx }

unfoldable pub new_transaction : Primitives → Wallet → Str → ℤ → State → Option Transaction
unfolding sign_ed signed_transaction
new_transaction c w to amount s =
    let nonce = get_next_nonce w.address_ed s in
    let sig = sign_ed c w (signing_data w.address_ed to amount nonce) in
    Option.map (signed_transaction c w to amount nonce) sig

-- `ed25519.Verify` panics, here `none`, on a public key that has not 32 bytes.
unfoldable pub ed25519_verify : Primitives → Str → Str → Str → Option Bool
ed25519_verify c key message sig =
    if length key == 32 then some (c.ed25519_check key message sig) else none

-- Both hexadecimal fields must decode before the signature is looked at.
unfoldable pub verify_transaction : Primitives → Transaction → Option Bool
unfolding ed25519_verify
verify_transaction c tx =
    let (pub_bytes, fine1) = hex_decode tx.pub_key in
    let (sig_bytes, fine2) = hex_decode tx.signature in
    if fine1 && fine2
    then ed25519_verify c pub_bytes (signing_data tx.from tx.to tx.amount tx.nonce) sig_bytes
    else some false

unfoldable pub hash_transaction : Primitives → Transaction → Str
hash_transaction c tx =
    hex_encode (c.sha256 (signing_data tx.from tx.to tx.amount tx.nonce ++ (b'|' ∷ tx.signature)))

-- What `ValidateAndAddToMempool` returns: `nil`, one of its errors, or a panic.
pub data Ingest : Type 0 where
  accepted insufficient_balance invalid_signature panicked : Ingest
  invalid_nonce : ℤ → ℤ → Ingest

unfoldable pub ingest_signed : Option Bool → Transaction → State → Ingest × State
ingest_signed none tx s = (panicked, s)
ingest_signed (some false) tx s = (invalid_signature, s)
ingest_signed (some true) tx s = (accepted, record s { mempool = s.mempool ++ (tx ∷ []) })

unfoldable pub validate_and_add_to_mempool : Primitives → Transaction → State → Ingest × State
unfolding ingest_signed
validate_and_add_to_mempool c tx s =
    let expected = add64 (get tx.from s.nonce_table) (pos 1) in
    let balance = get tx.from s.balances in
    if not (eqb_ℤ tx.nonce expected)
    then (invalid_nonce expected tx.nonce, s)
    else if ltb_ℤ balance (add64 tx.amount tx.fee)
    then (insufficient_balance, s)
    else ingest_signed (verify_transaction c tx) tx s
