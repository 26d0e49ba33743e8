-- ===== src/Tests/Folders.antt =====
-- The theorem about the validators' folder at a concrete input.
use hyperlux_chain.Prelude.{◌≡◌, refl, some, [], ◌∷◌, All, map, true, false, arith}
use hyperlux_chain.Prelude.Str.{Str}
use hyperlux_chain.Primitives.{SliceSort}
use hyperlux_chain.Ledger.Types.{ValidatorDef, empty_state}
use hyperlux_chain.Ledger.ValidatorFiles.{name_less, str_less, fix_validators}
use hyperlux_chain.Ledger.ValidatorFiles.Registered.{IsRegistered, fix_validators-IsRegistered}
use hyperlux_chain.Tests.Setup.{toy, insertion_sort}
use hyperlux_chain.Tests.Wallets.{keys, key_laws, wallet, wallet-IsWallet}

pub str_less-asym : (s t : Str) → str_less t s ≡ true → str_less s t ≡ false
unfolding str_less
str_less-asym [] [] e = refl
str_less-asym [] (d ∷ t) e = cc
str_less-asym (c ∷ s) [] e = refl
str_less-asym (c ∷ s) (d ∷ t) e = ground (arith, e, str_less-asym s t)

unfoldable pub by_name : SliceSort name_less
by_name = insertion_sort name_less (λ e f. str_less-asym e.0 f.0)

fix_validators-IsRegistered_example :
    let s' = (fix_validators keys by_name (wallet ∷ []) [] empty_state).1 in
    (map (λ (v : ValidatorDef). v.address) s'.validators ≡ wallet.address_ed ∷ [])
    × All (IsRegistered s'.validator_wallets) s'.validators
    × (s'.disk.saved_validators ≡ some s'.validators)
fix_validators-IsRegistered_example =
    fix_validators-IsRegistered keys toy key_laws by_name (wallet ∷ []) empty_state
      (wallet-IsWallet, tt) refl
