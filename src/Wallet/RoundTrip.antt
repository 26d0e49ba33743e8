-- ===== src/Wallet/RoundTrip.antt =====
-- What is written by SaveToFile and SaveKeystore (wallet/*.go) and read back.
use hyperlux_chain.Prelude.{
  ◌≡◌, ◌≤◌, refl, ap, ◌∙◌, some, length, drop, is_empty, false, arith, ltb,
}
use hyperlux_chain.Prelude.Str.{Str, IsBytes}
use hyperlux_chain.Prelude.Dict.{lookup, lookup-insert_self}
use hyperlux_chain.Primitives.{Primitives}
use hyperlux_chain.Codec.{hex_encode, hex_decode, hex_decode-hex_encode}
use hyperlux_chain.Ledger.Types.{Wallet}
use hyperlux_chain.Wallet.{
  WalletFile, Keystore, KeyLibrary, Files, save_to_file, load_wallet, parse_wallet, wallet_file,
  keystore_of, wallet_of, save_keystore, load_keystore, encrypt_private_key, decrypt_private_key,
  open_sec, open_keystore, rebuild_wallet, loaded, opened,
}

-- What the libraries document: JSON texts read back, what AES-GCM has sealed opens with the same
-- key and nonce, and what is sealed is bytes. Strings are taken to be valid UTF-8.
pub record KeyLaws (c : Primitives) (k : KeyLibrary) : Type 0 where
  pub read-write_wallet : (m : WalletFile) → k.read_wallet (k.write_wallet m) ≡ some m
  pub read-write_keystore : (m : Keystore) → k.read_keystore (k.write_keystore m) ≡ some m
  pub open-seal :
      (key nonce text : Str)
      → IsBytes text
      → length nonce ≡ 12
      → k.gcm_open key nonce (k.gcm_seal key nonce text) ≡ some text
  pub seal-IsBytes : (key nonce text : Str) → IsBytes text → IsBytes (k.gcm_seal key nonce text)

-- The fields of a wallet are bytes, its public keys belong to its private keys, and its secp256k1
-- key is one that the library reads back as it is.
pub record IsWallet (k : KeyLibrary) (w : Wallet) : Type 0 where
  pub pub_ed-IsBytes : IsBytes w.pub_ed
  pub priv_ed-IsBytes : IsBytes w.priv_ed
  pub pub_sec-IsBytes : IsBytes w.pub_sec
  pub priv_sec-IsBytes : IsBytes w.priv_sec
  pub long_key : 32 ≤ length w.priv_ed
  pub pub_ed_half : w.pub_ed ≡ drop 32 w.priv_ed
  pub pub_sec_matches : w.pub_sec ≡ k.sec_public w.priv_sec
  pub sec_key_whole : k.sec_key w.priv_sec ≡ w.priv_sec
  pub has_address : is_empty w.address_sec ≡ false

module _ (c : Primitives) (k : KeyLibrary) (laws : KeyLaws c k) where
  open laws use {read-write_wallet, read-write_keystore, open-seal, seal-IsBytes}

  wallet_of-wallet_file : (w : Wallet) → IsWallet k w → wallet_of k (wallet_file w) ≡ w
  unfolding wallet_of wallet_file
  wallet_of-wallet_file w h = cc (
    hex_decode-hex_encode w.pub_ed h.pub_ed-IsBytes,
    hex_decode-hex_encode w.priv_ed h.priv_ed-IsBytes,
    hex_decode-hex_encode w.pub_sec h.pub_sec-IsBytes,
    hex_decode-hex_encode w.priv_sec h.priv_sec-IsBytes,
    h.sec_key_whole,
  )

  parse_wallet-of :
      (text : Str) (m : WalletFile)
      → k.read_wallet text ≡ some m
      → parse_wallet k text ≡ some (wallet_of k m)
  unfolding parse_wallet wallet_of
  parse_wallet-of text m r = rw (r, parse_wallet) refl

  -- The text that a wallet is saved as.
  pub parse_wallet-written :
      (w : Wallet) → IsWallet k w → parse_wallet k (k.write_wallet (wallet_file w)) ≡ some w
  parse_wallet-written w h =
      parse_wallet-of _ _ (read-write_wallet (wallet_file w)) ∙ ap some (wallet_of-wallet_file w h)

  load_wallet-of :
      (filename text : Str) (files : Files)
      → lookup filename files ≡ some text
      → load_wallet k filename files ≡ parse_wallet k text
  unfolding load_wallet parse_wallet
  load_wallet-of filename text files e = rw (e, load_wallet) refl

  -- A wallet that was saved to a file is loaded from it unchanged.
  pub load_wallet-save_to_file :
      (w : Wallet) (filename : Str) (files : Files)
      → IsWallet k w
      → load_wallet k filename (save_to_file k w filename files) ≡ some w
  unfolding save_to_file
  load_wallet-save_to_file w filename files h =
      load_wallet-of filename _ _ (lookup-insert_self filename _ files) ∙ parse_wallet-written w h

  decrypt-encrypt :
      (nonce key password : Str)
      → IsBytes key
      → IsBytes nonce
      → length nonce ≡ 12
      → decrypt_private_key c k
          (hex_decode (hex_encode (encrypt_private_key c k nonce key password))).0
          (hex_decode (hex_encode nonce)).0
          password
        ≡ opened key
  unfolding decrypt_private_key encrypt_private_key
  decrypt-encrypt nonce key password kb b n =
      let sealed = seal-IsBytes (c.sha256 password) nonce key kb in
      let back = hex_decode-hex_encode (k.gcm_seal (c.sha256 password) nonce key) sealed in
      rw (back, hex_decode-hex_encode nonce b, n, open-seal (c.sha256 password) nonce key kb n) refl

  open_sec-opened :
      (m : Keystore) (password priv_ed plain : Str)
      → decrypt_private_key c k (hex_decode m.crypto_sec).0 (hex_decode m.nonce_sec).0 password
        ≡ opened plain
      → open_sec c k m password priv_ed ≡ rebuild_wallet c k m priv_ed plain
  unfolding open_sec
  open_sec-opened m password priv_ed plain e = rw (e, open_sec) refl

  open_keystore-opened :
      (m : Keystore) (password plain : Str)
      → decrypt_private_key c k (hex_decode m.crypto_ed).0 (hex_decode m.nonce_ed).0 password
        ≡ opened plain
      → open_keystore c k m password ≡ open_sec c k m password plain
  unfolding open_keystore
  open_keystore-opened m password plain e = rw (e, open_keystore) refl

  module _ (w : Wallet) (password nonce_ed nonce_sec : Str) where
    abbrev ks : Keystore
    ks = keystore_of c k w password nonce_ed nonce_sec

    rebuild_wallet-keystore_of :
        IsWallet k w → rebuild_wallet c k ks w.priv_ed w.priv_sec ≡ loaded w
    unfolding rebuild_wallet keystore_of
    rebuild_wallet-keystore_of h =
        let long : ltb (length w.priv_ed) 32 ≡ false = let l = h.long_key in ground arith in
        rw (long, h.has_address, h.sec_key_whole) (cc (h.pub_ed_half, h.pub_sec_matches))

    open_sec-keystore_of :
        IsWallet k w
        → IsBytes nonce_sec
        → length nonce_sec ≡ 12
        → open_sec c k ks password w.priv_ed ≡ loaded w
    unfolding keystore_of
    open_sec-keystore_of h b n =
        open_sec-opened ks password w.priv_ed w.priv_sec
          (decrypt-encrypt nonce_sec w.priv_sec password h.priv_sec-IsBytes b n)
        ∙ rebuild_wallet-keystore_of h

    open_keystore-keystore_of :
        IsWallet k w
        → IsBytes nonce_ed
        → IsBytes nonce_sec
        → length nonce_ed ≡ 12
        → length nonce_sec ≡ 12
        → open_keystore c k ks password ≡ loaded w
    unfolding keystore_of
    open_keystore-keystore_of h b1 b2 n1 n2 =
        open_keystore-opened ks password w.priv_ed
          (decrypt-encrypt nonce_ed w.priv_ed password h.priv_ed-IsBytes b1 n1)
        ∙ open_sec-keystore_of h b2 n2

  load_keystore-of :
      (filename text password : Str) (m : Keystore) (files : Files)
      → lookup filename files ≡ some text
      → k.read_keystore text ≡ some m
      → load_keystore c k filename password files ≡ open_keystore c k m password
  unfolding load_keystore open_keystore
  load_keystore-of filename text password m files e r = rw (e, load_keystore) (rw r refl)

  -- A keystore that is loaded with the password it was saved with gives the wallet back unchanged,
  -- if its nonces have the 12 bytes that AES-GCM demands.
  pub load_keystore-save_keystore :
      (w : Wallet) (filename password nonce_ed nonce_sec : Str) (files : Files)
      → IsWallet k w
      → IsBytes nonce_ed
      → IsBytes nonce_sec
      → length nonce_ed ≡ 12
      → length nonce_sec ≡ 12
      → load_keystore c k filename password
          (save_keystore c k w filename password nonce_ed nonce_sec files)
        ≡ loaded w
  unfolding save_keystore
  load_keystore-save_keystore w filename password nonce_ed nonce_sec files h b1 b2 n1 n2 =
      load_keystore-of filename _ password _ _ (lookup-insert_self filename _ files)
        (read-write_keystore _)
      ∙ open_keystore-keystore_of w password nonce_ed nonce_sec h b1 b2 n1 n2
