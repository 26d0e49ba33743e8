-- ===== src/Ledger/Transaction/Signing.antt =====
-- VerifyTransaction and NewTransaction of ledger/transaction.go: what a signature covers, and what
-- it leaves open.
use hyperlux_chain.Prelude.{
  ◌≡◌, refl, true, some, [], ◌∷◌, ◌++◌, length, arith, ◌∙◌, ap, sym, subst,
}
use mathlib.Core.Option.{some-injective}
use hyperlux_chain.Prelude.Int.{ℤ, ◌≤ℤ◌}
use hyperlux_chain.Prelude.Word64.{add64}
use hyperlux_chain.Prelude.Str.{Str}
use hyperlux_chain.Prelude.Dict.{get}
use hyperlux_chain.Primitives.{Primitives, SignatureLaws}
use hyperlux_chain.Codec.{hex_encode, hex_decode-hex_encode}
use hyperlux_chain.Ledger.Types.{Transaction, Wallet, State}
use hyperlux_chain.Ledger.Transaction.{
  signing_data, new_transaction, verify_transaction, hash_transaction, accepted,
  validate_and_add_to_mempool, get_next_nonce, signed_transaction,
}

-- The key pair of a wallet belongs together, and the private key has the length that Go demands.
pub record IsKeyPair (c : Primitives) (w : Wallet) : Type 0 where
  pub priv-length : length w.priv_ed ≡ 64
  pub pub_matches : w.pub_ed ≡ c.ed25519_public w.priv_ed

-- A transaction that carries a key and a signature made with it over its own fields.
abbrev pub signed_by : Primitives → Str → Transaction → Transaction
signed_by c key tx = record tx {
  signature = hex_encode (c.ed25519_sign key (signing_data tx.from tx.to tx.amount tx.nonce));
  pub_key = hex_encode (c.ed25519_public key);
}

module _ (c : Primitives) (laws : SignatureLaws c) where
  open laws use {sign-IsBytes, public-IsBytes, public-length, check-sign}

  pub verify-signed_by :
      (key : Str) (tx : Transaction) → verify_transaction c (signed_by c key tx) ≡ some true
  unfolding verify_transaction
  verify-signed_by key tx =
      rw
        (
          hex_decode-hex_encode _ (public-IsBytes key),
          hex_decode-hex_encode _
              (sign-IsBytes key (signing_data tx.from tx.to tx.amount tx.nonce)),
        )
        (rw (public-length key) (ap some (check-sign key _)))

  -- With any key at all, a transaction with such a signature is admitted under the sender's next
  -- nonce when the sender's balance covers the cost.
  pub signed_by-accepted :
      (key : Str) (tx : Transaction) (s : State)
      → tx.nonce ≡ get_next_nonce tx.from s
      → add64 tx.amount tx.fee ≤ℤ get tx.from s.balances
      → validate_and_add_to_mempool c (signed_by c key tx) s
        ≡ (accepted, record s { mempool = s.mempool ++ (signed_by c key tx ∷ []) })
  unfolding validate_and_add_to_mempool get_next_nonce
  signed_by-accepted key tx s next covered = rw (verify-signed_by key tx, next) (ground arith)

-- Neither the signature check nor the hash looks at the fee: whoever holds a transaction can
-- replace its fee, and it stays valid under the same hash.
pub fee_unsigned :
    (c : Primitives) (tx : Transaction) (f : ℤ)
    → (verify_transaction c (record tx { fee = f }) ≡ verify_transaction c tx)
      × (hash_transaction c (record tx { fee = f }) ≡ hash_transaction c tx)
unfolding verify_transaction hash_transaction
fee_unsigned c tx f = (refl, refl)

-- What `NewTransaction` makes for a wallet whose keys belong together.
made_by : Primitives → Wallet → Str → ℤ → State → Transaction
made_by c w to amount s =
    signed_transaction c w to amount (get_next_nonce w.address_ed s) (
      c.ed25519_sign w.priv_ed
        (signing_data w.address_ed to amount (get_next_nonce w.address_ed s)))

new_transaction-made_by :
    (c : Primitives) (w : Wallet) (to : Str) (amount : ℤ) (s : State)
    → IsKeyPair c w
    → new_transaction c w to amount s ≡ some (made_by c w to amount s)
unfolding new_transaction made_by
new_transaction-made_by c w to amount s keys = rw keys.priv-length refl

made_by-signed_by :
    (c : Primitives) (w : Wallet) (to : Str) (amount : ℤ) (s : State)
    → IsKeyPair c w
    → signed_by c w.priv_ed (made_by c w to amount s) ≡ made_by c w to amount s
unfolding made_by signed_transaction
made_by-signed_by c w to amount s keys =
    λ i. record (made_by c w to amount s) { pub_key = hex_encode (sym keys.pub_matches i) }

-- The transaction goes from the wallet's address to the receiver, over the amount, under the
-- account's next nonce, and the mempool admits it: it ends with it, and nothing else changes.
abbrev pub IsAdmitted : Primitives → Wallet → Str → ℤ → State → Transaction → Type 0
IsAdmitted c w to amount s tx =
    (tx.from ≡ w.address_ed)
    × (tx.to ≡ to)
    × (tx.amount ≡ amount)
    × (tx.nonce ≡ get_next_nonce w.address_ed s)
    × (validate_and_add_to_mempool c tx s
        ≡ (accepted, record s { mempool = s.mempool ++ (tx ∷ []) }))

module _ (c : Primitives) (laws : SignatureLaws c) where
  made_by-IsAdmitted :
      (w : Wallet) (to : Str) (amount : ℤ) (s : State)
      → IsKeyPair c w
      → add64 amount (made_by c w to amount s).fee ≤ℤ get w.address_ed s.balances
      → IsAdmitted c w to amount s (made_by c w to amount s)
  unfolding made_by signed_transaction
  made_by-IsAdmitted w to amount s keys covered = (
    refl,
    refl,
    refl,
    refl,
    subst
        (λ t.
          validate_and_add_to_mempool c t s
          ≡ (accepted, record s { mempool = s.mempool ++ (t ∷ []) }))
        (made_by-signed_by c w to amount s keys)
        (signed_by-accepted c laws w.priv_ed (made_by c w to amount s) s refl covered),
  )

  -- A wallet whose keys belong together makes a transaction with its own address, the account's
  -- next nonce and the given receiver and amount, and the mempool admits it when the balance covers
  -- the amount and the computed fee.
  pub new_transaction-IsAdmitted :
      (w : Wallet) (to : Str) (amount : ℤ) (s : State) (tx : Transaction)
      → IsKeyPair c w
      → new_transaction c w to amount s ≡ some tx
      → add64 amount tx.fee ≤ℤ get w.address_ed s.balances
      → IsAdmitted c w to amount s tx
  new_transaction-IsAdmitted w to amount s tx keys made covered =
      subst (IsAdmitted c w to amount s) same (
        made_by-IsAdmitted w to amount s keys
          (subst (λ t. add64 amount t.fee ≤ℤ get w.address_ed s.balances) (sym same) covered))
    where
      same : made_by c w to amount s ≡ tx
      same = some-injective _ _ (sym (new_transaction-made_by c w to amount s keys) ∙ made)
