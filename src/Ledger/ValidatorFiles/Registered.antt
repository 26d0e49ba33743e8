-- ===== src/Ledger/ValidatorFiles/Registered.antt =====
-- FixValidators (ledger/validator.go) on a node that has no validators and an empty folder.
use mathlib.Core.List.{append_cancel_right, append-nil, append_assoc}
use hyperlux_chain.Prelude.{
  ◌≡◌, refl, sym, ap, subst, ◌∙◌, some, List, [], ◌∷◌, ◌++◌, All, All-perm, All-append, All-map,
  map, inl, inr, Option-cases,
}
use hyperlux_chain.Prelude.Int.{pos}
use hyperlux_chain.Prelude.Str.{Str, Str_discrete, codes}
use hyperlux_chain.Prelude.Dict.{
  Dict, lookup, insert, lookup-insert_self, lookup-insert_ne, lookup-insert_still, insert-All,
  lookup-All,
}
use hyperlux_chain.Primitives.{Primitives, SliceSort}
use hyperlux_chain.Ledger.Types.{State, ValidatorDef, Wallet}
use hyperlux_chain.Ledger.Storage.{save_validators}
use hyperlux_chain.Wallet.{KeyLibrary, wallet_file}
use hyperlux_chain.Wallet.RoundTrip.{KeyLaws, IsWallet, parse_wallet-written}
use hyperlux_chain.Ledger.ValidatorFiles.{
  Entry, a_file, a_folder, Folder, name_less, json_name, load_entry, own_file, scan_wallets,
  find_wallet, first_some, put_wallet, load_wallets, auto_load_validator_wallets, registered,
  import_validators, write_entry, generate_validators, repair_validators, fix_validators,
}

-- A file that is named after an address holds a wallet with that address.
abbrev IsNamed : KeyLibrary → Str × Entry → Type 0
IsNamed k e =
    (w : Wallet) × (load_entry k e.1 ≡ some w) × ((a : Str) → e.0 ≡ json_name a → w.address_ed ≡ a)

abbrev HasFile : Folder → ValidatorDef → Type 0
HasFile folder v = (e : Entry) × (lookup (json_name v.address) folder ≡ some e)

-- There is a wallet in memory for the validator, and it has the validator's address.
abbrev pub HasWallet : Dict Wallet → Str → Type 0
HasWallet wallets a = (w : Wallet) × (lookup a wallets ≡ some w) × (w.address_ed ≡ a)

-- A validator that FixValidators has registered by itself.
abbrev pub IsRegistered : Dict Wallet → ValidatorDef → Type 0
IsRegistered wallets v = (v.stake ≡ pos 100000) × HasWallet wallets v.address

module _ (k : KeyLibrary) where
  write_entry-named :
      (name text : Str) (folder : Folder)
      → All (IsNamed k) folder
      → write_entry name text folder ≡ some (insert name (a_file text) folder)
  unfolding write_entry load_entry
  write_entry-named name text folder h = elim (Option-cases (lookup name folder)) [
    | inl e ↦ rw (e, write_entry) refl
    | inr (a_file old, e) ↦ rw (e, write_entry) refl
    | inr (a_folder, e) ↦
        let (w, loads, own) = lookup-All (IsNamed k) name a_folder folder e h in cc
  ]

  HasFile-insert :
      (name text : Str) (folder : Folder) (vs : List ValidatorDef)
      → All (HasFile folder) vs
      → All (HasFile (insert name (a_file text) folder)) vs
  HasFile-insert name text folder vs h =
      All-map (λ v f. lookup-insert_still name (json_name v.address) (a_file text) f.0 folder f.1)
        vs h

  own_file-HasFile :
      (a : Str) (folder : Folder)
      → All (IsNamed k) folder
      → (e : Entry) × (lookup (json_name a) folder ≡ some e)
      → (w : Wallet) × (own_file k a folder ≡ some w) × (w.address_ed ≡ a)
  unfolding own_file
  own_file-HasFile a folder h (e, there) =
      let (w, loads, own) = lookup-All (IsNamed k) (json_name a) e folder there h in
      (w, rw (there, own_file) loads, own a refl)

  -- One wallet more in memory, under its own address, takes no validator's wallet away.
  put_wallet-HasWallet :
      (a b : Str) (w : Wallet) (wallets : Dict Wallet)
      → w.address_ed ≡ a
      → HasWallet wallets b
      → HasWallet (insert a w wallets) b
  put_wallet-HasWallet a b w wallets own (u, there, own') = elim (Str_discrete a b) [
    | yes e ↦ (
      w,
      subst (λ z. lookup z (insert a w wallets) ≡ some w) e (lookup-insert_self a w wallets),
      own ∙ e,
    )
    | no ne ↦ (u, lookup-insert_ne a b w wallets ne ∙ there, own')
  ]

  module _ (listing : List (Str × Entry)) (folder : Folder) (named : All (IsNamed k) folder) where
    find_wallet-HasFile :
        (v : ValidatorDef)
        → HasFile folder v
        → (w : Wallet) × (find_wallet k v.address listing folder ≡ some w)
          × (w.address_ed ≡ v.address)
    unfolding find_wallet
    find_wallet-HasFile v f =
        let (w, found, own) = own_file-HasFile v.address folder named f in
        (w, ap (λ o. first_some o (scan_wallets k v.address listing)) found, own)

    load_wallets-keep :
        (vs : List ValidatorDef) (wallets : Dict Wallet) (b : Str)
        → All (HasFile folder) vs
        → HasWallet wallets b
        → HasWallet (load_wallets k listing folder vs wallets) b
    unfolding load_wallets
    load_wallets-keep [] wallets b h has = has
    load_wallets-keep (v ∷ vs) wallets b h has =
        let (w, found, own) = find_wallet-HasFile v h.0 in
        load_wallets-keep vs _ b h.1 (
          subst (λ o. HasWallet (put_wallet v.address o wallets) b) (sym found)
            (put_wallet-HasWallet v.address b w wallets own has))

    load_wallets-HasWallet :
        (vs : List ValidatorDef) (wallets : Dict Wallet)
        → All (HasFile folder) vs
        → All (λ v. HasWallet (load_wallets k listing folder vs wallets) v.address) vs
    unfolding load_wallets
    load_wallets-HasWallet [] wallets h = tt
    load_wallets-HasWallet (v ∷ vs) wallets h =
        let (w, found, own) = find_wallet-HasFile v h.0 in
        (
          load_wallets-keep vs _ v.address h.1 (
              subst (λ o. HasWallet (put_wallet v.address o wallets) v.address) (sym found)
                (w, lookup-insert_self v.address w wallets, own)),
          load_wallets-HasWallet vs _ h.1,
        )

  module _ (c : Primitives) (laws : KeyLaws c k) where
    -- What is kept of the folder and the list of validators while wallets are generated.
    record Generated (vs : List ValidatorDef) (fresh : List Wallet)
        (made : Folder × List ValidatorDef) : Type 0 where
      named : All (IsNamed k) made.0
      files : All (HasFile made.0) made.1
      stakes : All (λ v. v.stake ≡ pos 100000) made.1
      in_order : made.1 ≡ vs ++ map registered fresh

    written-IsNamed :
        (w : Wallet)
        → IsWallet k w
        → IsNamed k (json_name w.address_ed, a_file (k.write_wallet (wallet_file w)))
    unfolding load_entry
    written-IsNamed w h = (
      w,
      parse_wallet-written c k laws w h,
      λ a e. append_cancel_right w.address_ed a (codes ".json") e,
    )

    generate_validators-Generated :
        (fresh : List Wallet) (folder : Folder) (vs : List ValidatorDef)
        → All (IsWallet k) fresh
        → All (IsNamed k) folder
        → All (HasFile folder) vs
        → All (λ v. v.stake ≡ pos 100000) vs
        → Generated vs fresh (generate_validators k fresh folder vs)
    unfolding generate_validators
    generate_validators-Generated [] folder vs ws named files stakes = record {
      named = named;
      files = files;
      stakes = stakes;
      in_order = sym (append-nil vs);
    }
    generate_validators-Generated (w ∷ fresh) folder vs ws named files stakes =
        let name = json_name w.address_ed in
        let text = k.write_wallet (wallet_file w) in
        let folder' = insert name (a_file text) folder in
        let vs' = vs ++ (registered w ∷ []) in
        let g =
          generate_validators-Generated fresh folder' vs' ws.1
            (insert-All (IsNamed k) name (a_file text) folder (written-IsNamed w ws.0) named)
            (All-append (HasFile folder') vs (registered w ∷ [])
              (HasFile-insert name text folder vs files)
              ((a_file text, lookup-insert_self name (a_file text) folder), tt))
            (All-append (λ v. v.stake ≡ pos 100000) vs (registered w ∷ []) stakes (refl, tt)) in
        rw (write_entry-named name text folder named, generate_validators)
          (record {
            named = g.named;
            files = g.files;
            stakes = g.stakes;
            in_order = g.in_order ∙ append_assoc vs (registered w ∷ []) (map registered fresh);
          })

    registered_addresses :
        (fresh : List Wallet)
        → map (λ (v : ValidatorDef). v.address) (map registered fresh)
          ≡ map (λ (w : Wallet). w.address_ed) fresh
    registered_addresses [] = refl
    registered_addresses (w ∷ ws) = ap (◌∷◌ w.address_ed) (registered_addresses ws)

    pair_All :
        (wallets : Dict Wallet) (vs : List ValidatorDef)
        → All (λ v. v.stake ≡ pos 100000) vs
        → All (λ v. HasWallet wallets v.address) vs
        → All (IsRegistered wallets) vs
    pair_All wallets [] p q = tt
    pair_All wallets (v ∷ vs) p q = ((p.0, q.0), pair_All wallets vs p.1 q.1)

    module _ (sorter : SliceSort name_less) where
      sort_nil : sorter.sort [] ≡ []
      sort_nil = go (sorter.sort []) (All-perm (λ e. ⊥) (sorter.sort-perm []) tt)
        where
          go : (es : List (Str × Entry)) → All (λ e. ⊥) es → es ≡ []
          go [] h = refl
          go (e ∷ es) h = absurd (h.0)

      repair_validators_new :
          (fresh : List Wallet)
          → repair_validators k sorter fresh [] [] ≡ generate_validators k fresh [] []
      unfolding repair_validators import_validators
      repair_validators_new fresh = rw sort_nil refl

      -- FixValidators on a node without validators, with an empty folder, registers one validator
      -- for each wallet that it generates, under that wallet's address and in their order, with a
      -- stake of 100000; it saves them, and holds in memory a wallet with the validator's own
      -- address for each of them.
      pub fix_validators-IsRegistered :
          (fresh : List Wallet) (s : State)
          → All (IsWallet k) fresh
          → s.validators ≡ []
          → let s' = (fix_validators k sorter fresh [] s).1 in
            (map (λ (v : ValidatorDef). v.address) s'.validators
              ≡ map (λ (w : Wallet). w.address_ed) fresh)
            × All (IsRegistered s'.validator_wallets) s'.validators
            × (s'.disk.saved_validators ≡ some s'.validators)
      unfolding fix_validators auto_load_validator_wallets save_validators
      fix_validators-IsRegistered fresh s ws none_yet =
          let g = generate_validators-Generated fresh [] [] ws tt tt tt in
          let made = generate_validators k fresh [] [] in
          let same : repair_validators k sorter fresh [] s.validators ≡ made =
            ap (repair_validators k sorter fresh []) none_yet ∙ repair_validators_new fresh in
          rw same (
            ap (map (λ (v : ValidatorDef). v.address)) g.in_order ∙ registered_addresses fresh,
            pair_All _ made.1 g.stakes (
                load_wallets-HasWallet (sorter.sort made.0) made.0 g.named made.1
                  s.validator_wallets g.files),
            refl,
          )
