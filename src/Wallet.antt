-- ===== src/Wallet.antt =====
-- The package wallet: keys, wallet files (wallet/wallet.go) and encrypted keystores
-- (wallet/keystore.go). The secp256k1 and AES-GCM libraries and the JSON text of a file are
-- parameters. A wallet's secp256k1 key is the 32 bytes it serializes to. Files are a map from paths
-- to contents; a write does not fail.
pub mod RoundTrip
use hyperlux_chain.Prelude.{
  ◌≡◌, Bool, Option, none, some, [], ◌++◌, length, is_empty, take, drop, if◌then◌else◌, ◌==◌, ltb,
}
use hyperlux_chain.Prelude.Str.{Str, codes}
use hyperlux_chain.Prelude.Dict.{Dict, lookup, insert}
use hyperlux_chain.Primitives.{Primitives}
use hyperlux_chain.Codec.{hex_encode, hex_decode}
use hyperlux_chain.Ledger.Types.{Wallet}

-- `map[string]string` of a wallet file: a key that is missing reads as the empty string.
pub record WalletFile : Type 0 where
  pub file_address_ed : Str
  pub file_pub_ed : Str
  pub file_priv_ed : Str
  pub file_address_sec : Str
  pub file_pub_sec : Str
  pub file_priv_sec : Str

pub record Keystore : Type 0 where
  pub ks_address_ed : Str
  pub crypto_ed : Str
  pub nonce_ed : Str
  pub ks_address_sec : Str
  pub crypto_sec : Str
  pub nonce_sec : Str

pub record KeyLibrary : Type 0 where
  -- `PrivKeyFromBytes`, serialized
  pub sec_key : Str → Str
  -- `PubKey().SerializeCompressed()`
  pub sec_public : Str → Str
  -- `ecdsa.Sign`, serialized
  pub sec_sign : Str → Str → Str
  -- AES-256-GCM: key, nonce, text
  pub gcm_seal : Str → Str → Str → Str
  pub gcm_open : Str → Str → Str → Option Str
  -- `json.MarshalIndent` and `json.Unmarshal`
  pub write_wallet : WalletFile → Str
  pub read_wallet : Str → Option WalletFile
  pub write_keystore : Keystore → Str
  pub read_keystore : Str → Option Keystore

abbrev pub Files : Type 0
Files = Dict Str

unfoldable pub sec_address : Primitives → Str → Str
sec_address c pub_sec = codes "hlcSec" ++ hex_encode (take 4 (c.sha256 pub_sec))

-- The arguments are the keys that the generators of the two libraries give.
unfoldable pub generate_wallet : Primitives → KeyLibrary → Str → Str → Str → Wallet
unfolding sec_address
generate_wallet c k pub_ed priv_ed priv_sec =
    let pub_sec = k.sec_public priv_sec in
    record {
      address_ed = codes "hlcEd" ++ hex_encode (take 4 pub_ed);
      pub_ed = pub_ed;
      priv_ed = priv_ed;
      address_sec = sec_address c pub_sec;
      pub_sec = pub_sec;
      priv_sec = priv_sec;
    }

unfoldable pub wallet_file : Wallet → WalletFile
wallet_file w = record {
  file_address_ed = w.address_ed;
  file_pub_ed = hex_encode w.pub_ed;
  file_priv_ed = hex_encode w.priv_ed;
  file_address_sec = w.address_sec;
  file_pub_sec = hex_encode w.pub_sec;
  file_priv_sec = hex_encode w.priv_sec;
}

unfoldable pub save_to_file : KeyLibrary → Wallet → Str → Files → Files
unfolding wallet_file
save_to_file k w filename files = insert filename (k.write_wallet (wallet_file w)) files

-- The wallet of a file's fields: the errors of the four decodings are dropped.
unfoldable pub wallet_of : KeyLibrary → WalletFile → Wallet
wallet_of k m = record {
  address_ed = m.file_address_ed;
  pub_ed = (hex_decode m.file_pub_ed).0;
  priv_ed = (hex_decode m.file_priv_ed).0;
  address_sec = m.file_address_sec;
  pub_sec = (hex_decode m.file_pub_sec).0;
  priv_sec = k.sec_key (hex_decode m.file_priv_sec).0;
}

-- What the text of a file gives; `none` is the error of `json.Unmarshal`.
unfoldable pub parse_wallet : KeyLibrary → Str → Option Wallet
unfolding wallet_of
parse_wallet k text = elim (k.read_wallet text) [ none ↦ none | some m ↦ some (wallet_of k m) ]

-- `none` is an error: no such file, or no JSON object of strings.
unfoldable pub load_wallet : KeyLibrary → Str → Files → Option Wallet
unfolding parse_wallet
load_wallet k filename files = elim (lookup filename files) [
  | none ↦ none
  | some text ↦ parse_wallet k text
]

unfoldable pub sign_sec : KeyLibrary → Wallet → Str → Str
sign_sec k w message = k.sec_sign w.priv_sec message

-- The nonce is what `rand.Reader` gives.
unfoldable pub encrypt_private_key : Primitives → KeyLibrary → Str → Str → Str → Str
encrypt_private_key c k nonce priv_key password = k.gcm_seal (c.sha256 password) nonce priv_key

pub data Opened : Type 0 where
  opened : Str → Opened
  refused nonce_panic : Opened

abbrev pub open_result : Option Str → Opened
open_result none = refused
open_result (some plain) = opened plain

-- `gcm.Open` panics on a nonce that has not 12 bytes.
unfoldable pub decrypt_private_key : Primitives → KeyLibrary → Str → Str → Str → Opened
decrypt_private_key c k cipher_text nonce password =
    if length nonce == 12
    then open_result (k.gcm_open (c.sha256 password) nonce cipher_text)
    else nonce_panic

-- The two nonces are the random bytes that the two encryptions draw.
unfoldable pub keystore_of : Primitives → KeyLibrary → Wallet → Str → Str → Str → Keystore
unfolding encrypt_private_key
keystore_of c k w password nonce_ed nonce_sec = record {
  ks_address_ed = w.address_ed;
  crypto_ed = hex_encode (encrypt_private_key c k nonce_ed w.priv_ed password);
  nonce_ed = hex_encode nonce_ed;
  ks_address_sec = w.address_sec;
  crypto_sec = hex_encode (encrypt_private_key c k nonce_sec w.priv_sec password);
  nonce_sec = hex_encode nonce_sec;
}

unfoldable pub save_keystore :
    Primitives → KeyLibrary → Wallet → Str → Str → Str → Str → Files → Files
unfolding keystore_of
save_keystore c k w filename password nonce_ed nonce_sec files =
    insert filename (k.write_keystore (keystore_of c k w password nonce_ed nonce_sec)) files

pub data Loaded : Type 0 where
  loaded : Wallet → Loaded
  no_file invalid_json invalid_password_ed invalid_password_sec panicked : Loaded

-- The wallet of two decrypted keys. `privEd[32:]` panics on a key of less than 32 bytes.
unfoldable pub rebuild_wallet : Primitives → KeyLibrary → Keystore → Str → Str → Loaded
unfolding sec_address
rebuild_wallet c k ks priv_ed priv_sec_bytes =
    let priv_sec = k.sec_key priv_sec_bytes in
    let pub_sec = k.sec_public priv_sec in
    let addr_sec =
      if is_empty ks.ks_address_sec then sec_address c pub_sec else ks.ks_address_sec in
    if ltb (length priv_ed) 32
    then panicked
    else loaded (record {
      address_ed = ks.ks_address_ed;
      pub_ed = drop 32 priv_ed;
      priv_ed = priv_ed;
      address_sec = addr_sec;
      pub_sec = pub_sec;
      priv_sec = priv_sec;
    })

unfoldable pub open_sec : Primitives → KeyLibrary → Keystore → Str → Str → Loaded
unfolding decrypt_private_key rebuild_wallet
open_sec c k ks password priv_ed =
    elim (decrypt_private_key c k (hex_decode ks.crypto_sec).0 (hex_decode ks.nonce_sec).0
      password) [
        | nonce_panic ↦ panicked
        | refused ↦ invalid_password_sec
        | opened priv_sec_bytes ↦ rebuild_wallet c k ks priv_ed priv_sec_bytes
      ]

unfoldable pub open_keystore : Primitives → KeyLibrary → Keystore → Str → Loaded
unfolding decrypt_private_key open_sec
open_keystore c k ks password =
    elim (decrypt_private_key c k (hex_decode ks.crypto_ed).0 (hex_decode ks.nonce_ed).0 password) [
      | nonce_panic ↦ panicked
      | refused ↦ invalid_password_ed
      | opened priv_ed ↦ open_sec c k ks password priv_ed
    ]

unfoldable pub load_keystore : Primitives → KeyLibrary → Str → Str → Files → Loaded
unfolding open_keystore
load_keystore c k filename password files = elim (lookup filename files) [
  | none ↦ no_file
  | some text ↦ elim (k.read_keystore text) [
    | none ↦ invalid_json
    | some ks ↦ open_keystore c k ks password
  ]
]
