-- ===== src/Tests/Wallets.antt =====
-- The theorems about wallet files and keystores at concrete inputs.
use hyperlux_chain.Prelude.{
  ℕ, zero, suc, take, ap, ◌∙◌, ◌≡◌, ◌<◌, refl, some, [], ◌∷◌, ◌++◌, length, drop, arith,
}
use hyperlux_chain.Prelude.Str.{Str, codes, IsBytes}
use hyperlux_chain.Ledger.Types.{Wallet}
use hyperlux_chain.Wallet.{
  KeyLibrary, save_to_file, load_wallet, save_keystore, load_keystore, loaded,
}
use hyperlux_chain.Wallet.RoundTrip.{
  KeyLaws, IsWallet, load_wallet-save_to_file, load_keystore-save_keystore,
}
use hyperlux_chain.Tests.Setup.{toy, alice, repeat}

-- Texts one after the other, each behind its length.
unfoldable pub put : Str → Str → Str
put s rest = length s ∷ (s ++ rest)

abbrev pub pull : Str → Str × Str
pull [] = ([], [])
pull (n ∷ text) = (take n text, drop n text)

take-append : (s rest : Str) → take (length s) (s ++ rest) ≡ s
take-append [] rest = refl
take-append (b ∷ s) rest = ap (◌∷◌ b) (take-append s rest)

drop-append : (s rest : Str) → drop (length s) (s ++ rest) ≡ rest
drop-append [] rest = refl
drop-append (b ∷ s) rest = drop-append s rest

pub pull-put : (s rest : Str) → pull (put s rest) ≡ (s, rest)
unfolding put
pull-put s rest = cc (take-append s rest, drop-append s rest)

abbrev put_six : Str → Str → Str → Str → Str → Str → Str
put_six a b c d e f = put a (put b (put c (put d (put e (put f [])))))

abbrev second_on : Str → Str
second_on text = (pull text).1

abbrev field : ℕ → Str → Str
field zero text = (pull text).0
field (suc n) text = field n (second_on text)

field_here : (s rest : Str) → field 0 (put s rest) ≡ s
field_here s rest = ap (λ (p : Str × Str). p.0) (pull-put s rest)

field_next : (n : ℕ) (s rest : Str) → field (suc n) (put s rest) ≡ field n rest
field_next n s rest = ap (λ (p : Str × Str). field n p.1) (pull-put s rest)

fields-put_six :
    (a b c d e f : Str)
    → let text = put_six a b c d e f in
      (field 0 text ≡ a)
      × (field 1 text ≡ b)
      × (field 2 text ≡ c)
      × (field 3 text ≡ d)
      × (field 4 text ≡ e)
      × (field 5 text ≡ f)
fields-put_six a b c d e f = (
  field_here a _,
  field_next 0 a _ ∙ field_here b _,
  field_next 1 a _ ∙ field_next 0 b _ ∙ field_here c _,
  field_next 2 a _ ∙ field_next 1 b _ ∙ field_next 0 c _ ∙ field_here d _,
  field_next 3 a _ ∙ field_next 2 b _ ∙ field_next 1 c _ ∙ field_next 0 d _ ∙ field_here e _,
  field_next 4 a _
      ∙ field_next 3 b _
      ∙ field_next 2 c _
      ∙ field_next 1 d _
      ∙ field_next 0 e _
      ∙ field_here f [],
)

-- Sealing leaves the text as it is, and the JSON text is the fields one after the other.
abbrev pub keys : KeyLibrary
keys = record {
  sec_key = λ b. b;
  sec_public = λ b. b;
  sec_sign = λ key m. m;
  gcm_seal = λ key nonce text. text;
  gcm_open = λ key nonce text. some text;
  write_wallet = λ m.
      put_six m.file_address_ed m.file_pub_ed m.file_priv_ed m.file_address_sec m.file_pub_sec
        m.file_priv_sec;
  read_wallet = λ t. some (record {
    file_address_ed = field 0 t;
    file_pub_ed = field 1 t;
    file_priv_ed = field 2 t;
    file_address_sec = field 3 t;
    file_pub_sec = field 4 t;
    file_priv_sec = field 5 t;
  });
  write_keystore =
      λ m. put_six m.ks_address_ed m.crypto_ed m.nonce_ed m.ks_address_sec m.crypto_sec m.nonce_sec;
  read_keystore = λ t. some (record {
    ks_address_ed = field 0 t;
    crypto_ed = field 1 t;
    nonce_ed = field 2 t;
    ks_address_sec = field 3 t;
    crypto_sec = field 4 t;
    nonce_sec = field 5 t;
  });
}

pub key_laws : KeyLaws toy keys
key_laws = record {
  read-write_wallet = λ m.
      let (e0, e1, e2, e3, e4, e5) =
        fields-put_six m.file_address_ed m.file_pub_ed m.file_priv_ed m.file_address_sec
          m.file_pub_sec m.file_priv_sec in
      cc (e0, e1, e2, e3, e4, e5);
  read-write_keystore = λ m.
      let (e0, e1, e2, e3, e4, e5) =
        fields-put_six m.ks_address_ed m.crypto_ed m.nonce_ed m.ks_address_sec m.crypto_sec
          m.nonce_sec in
      cc (e0, e1, e2, e3, e4, e5);
  open-seal = λ key nonce text b n. refl;
  seal-IsBytes = λ key nonce text b. b;
}

abbrev pub wallet : Wallet
wallet = record {
  address_ed = alice;
  pub_ed = repeat 32 5;
  priv_ed = repeat 64 5;
  address_sec = codes "hlcSec07070707";
  pub_sec = repeat 32 7;
  priv_sec = repeat 32 7;
}

repeat-IsBytes : (n b : ℕ) → b < 256 → IsBytes (repeat n b)
repeat-IsBytes zero b h = tt
repeat-IsBytes (suc n) b h = (h, repeat-IsBytes n b h)

pub wallet-IsWallet : IsWallet keys wallet
wallet-IsWallet = record {
  pub_ed-IsBytes = repeat-IsBytes 32 5 (omega arith);
  priv_ed-IsBytes = repeat-IsBytes 64 5 (omega arith);
  pub_sec-IsBytes = repeat-IsBytes 32 7 (omega arith);
  priv_sec-IsBytes = repeat-IsBytes 32 7 (omega arith);
  long_key = omega arith;
  pub_ed_half = refl;
  pub_sec_matches = refl;
  sec_key_whole = refl;
  has_address = refl;
}

load_wallet-save_to_file_example :
    load_wallet keys (codes "w.json") (save_to_file keys wallet (codes "w.json") []) ≡ some wallet
load_wallet-save_to_file_example =
    load_wallet-save_to_file toy keys key_laws wallet (codes "w.json") [] wallet-IsWallet

load_keystore-save_keystore_example :
    load_keystore toy keys (codes "k.json") (codes "secret") (
      save_keystore toy keys wallet
        (codes "k.json")
        (codes "secret")
        (repeat 12 1)
        (repeat 12 2)
        [])
    ≡ loaded wallet
load_keystore-save_keystore_example =
    load_keystore-save_keystore toy keys key_laws wallet (codes "k.json") (codes "secret")
      (repeat 12 1) (repeat 12 2) [] wallet-IsWallet (repeat-IsBytes 12 1 (omega arith))
      (repeat-IsBytes 12 2 (omega arith)) refl refl
