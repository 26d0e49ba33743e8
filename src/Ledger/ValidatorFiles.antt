-- ===== src/Ledger/ValidatorFiles.antt =====
-- The folder "validators" (ledger/validator.go): AutoLoadValidatorWallets, FixValidators and
-- ExportValidatorsJSON. A folder is a map from names to files and folders; `os.ReadDir` lists it by
-- name. Addresses have no path separator, so a validator's file is in the folder. A write fails
-- only where a folder has the name.
pub mod Registered
use hyperlux_chain.Prelude.{
  ℕ, zero, suc, Bool, true, false, not, ◌&&◌, Option, none, some, List, [], ◌∷◌, ◌++◌, is_empty,
  ite, if◌then◌else◌, ltb, ◌==◌,
}
use hyperlux_chain.Prelude.Int.{pos}
use hyperlux_chain.Prelude.Str.{Str, Str_discrete, codes}
use hyperlux_chain.Prelude.Dict.{Dict, lookup, insert}
use hyperlux_chain.Primitives.{SliceSort}
use hyperlux_chain.Ledger.Types.{State, ValidatorDef, Wallet}
use hyperlux_chain.Ledger.Storage.{save_validators}
use hyperlux_chain.Wallet.{KeyLibrary, parse_wallet, wallet_file}

pub data Entry : Type 0 where
  a_file : Str → Entry
  a_folder : Entry

abbrev pub Folder : Type 0
Folder = Dict Entry

-- The order of strings, byte by byte.
unfoldable pub str_less : Str → Str → Bool
str_less [] [] = false
str_less [] (d ∷ t) = true
str_less (c ∷ s) [] = false
str_less (c ∷ s) (d ∷ t) =
    let rest = str_less s t in if ltb c d then true else if c == d then rest else false

abbrev pub name_less : Str × Entry → Str × Entry → Bool
name_less e f = str_less e.0 f.0

-- `filepath.Ext`: from the last dot on.
unfoldable pub ext : Str → Str
ext [] = []
ext (b ∷ s) = let rest = ext s in if is_empty rest then if b == b'.' then b ∷ s else [] else rest

abbrev pub is_json : Str → Bool
is_json name = ite (Str_discrete (ext name) (codes ".json")) true false

abbrev pub json_name : Str → Str
json_name addr = addr ++ codes ".json"

-- `wallet.LoadWallet` of an entry: reading a folder is an error.
unfoldable pub load_entry : KeyLibrary → Entry → Option Wallet
unfolding parse_wallet
load_entry k (a_file text) = parse_wallet k text
load_entry k a_folder = none

abbrev pub is_folder : Entry → Bool
is_folder (a_file text) = false
is_folder a_folder = true

-- The wallet that a listed entry gives, if its name and kind fit and it loads.
unfoldable pub listed_wallet : KeyLibrary → Str × Entry → Option Wallet
unfolding load_entry ext
listed_wallet k (name, e) =
    if is_folder e then none else if is_json name then load_entry k e else none

-- The first listed wallet with the address.
unfoldable pub scan_wallets : KeyLibrary → Str → List (Str × Entry) → Option Wallet
unfolding listed_wallet
scan_wallets k addr [] = none
scan_wallets k addr (e ∷ es) =
    let rest = scan_wallets k addr es in
    elim (listed_wallet k e) [
      | none ↦ rest
      | some w ↦ ite (Str_discrete w.address_ed addr) (some w) rest
    ]

-- The wallet of the file that is named after the address: its own address is not looked at.
unfoldable pub own_file : KeyLibrary → Str → Folder → Option Wallet
unfolding load_entry
own_file k addr folder = elim (lookup (json_name addr) folder) [
  | none ↦ none
  | some e ↦ load_entry k e
]

abbrev pub put_wallet : Str → Option Wallet → Dict Wallet → Dict Wallet
put_wallet addr none wallets = wallets
put_wallet addr (some w) wallets = insert addr w wallets

abbrev pub first_some : Option Wallet → Option Wallet → Option Wallet
first_some (some w) o = some w
first_some none o = o

unfoldable pub find_wallet : KeyLibrary → Str → List (Str × Entry) → Folder → Option Wallet
unfolding own_file scan_wallets
find_wallet k addr listing folder =
    first_some (own_file k addr folder) (scan_wallets k addr listing)

unfoldable pub load_wallets :
    KeyLibrary → List (Str × Entry) → Folder → List ValidatorDef → Dict Wallet → Dict Wallet
unfolding find_wallet
load_wallets k listing folder [] wallets = wallets
load_wallets k listing folder (v ∷ vs) wallets =
    load_wallets k listing folder vs
      (put_wallet v.address (find_wallet k v.address listing folder) wallets)

-- `Stake: 100000`
abbrev pub registered : Wallet → ValidatorDef
registered w = record { address = w.address_ed; stake = pos 100000 }

-- The file is written unless a folder has its name.
unfoldable pub write_entry : Str → Str → Folder → Option Folder
write_entry name text folder = elim (lookup name folder) [
  | some a_folder ↦ none
  | some (a_file old) ↦ some (insert name (a_file text) folder)
  | none ↦ some (insert name (a_file text) folder)
]

module _ (k : KeyLibrary) where
  -- A validator for each wallet in the folder.
  unfoldable pub import_validators : List (Str × Entry) → List ValidatorDef
  unfolding listed_wallet
  import_validators [] = []
  import_validators (e ∷ es) =
      let rest = import_validators es in
      elim (listed_wallet k e) [ none ↦ rest | some w ↦ registered w ∷ rest ]

  -- The wallets that are generated are the argument.
  unfoldable pub generate_validators :
      List Wallet → Folder → List ValidatorDef → Folder × List ValidatorDef
  unfolding write_entry wallet_file
  generate_validators [] folder vs = (folder, vs)
  generate_validators (w ∷ ws) folder vs =
      elim (write_entry (json_name w.address_ed) (k.write_wallet (wallet_file w)) folder) [
        | none ↦ generate_validators ws folder vs
        | some folder' ↦ generate_validators ws folder' (vs ++ (registered w ∷ []))
      ]

module _ (k : KeyLibrary) (sorter : SliceSort name_less) where
  unfoldable pub auto_load_validator_wallets : Folder → State → State
  unfolding load_wallets
  auto_load_validator_wallets folder s = record s {
    validator_wallets = load_wallets k (sorter.sort folder) folder s.validators s.validator_wallets;
  }

  -- The validators' folder and the list of validators, before the last two calls.
  unfoldable pub repair_validators :
      List Wallet → Folder → List ValidatorDef → Folder × List ValidatorDef
  unfolding import_validators generate_validators
  repair_validators fresh folder vs =
      let found = if is_empty vs then import_validators k (sorter.sort folder) else vs in
      if is_empty found then generate_validators k fresh folder found else (folder, found)

  -- The six generated wallets are the first argument.
  unfoldable pub fix_validators : List Wallet → Folder → State → Folder × State
  unfolding repair_validators auto_load_validator_wallets save_validators
  fix_validators fresh folder s =
      let made = repair_validators fresh folder s.validators in
      (
        made.0,
        auto_load_validator_wallets made.0 (save_validators (record s { validators = made.1 })),
      )
