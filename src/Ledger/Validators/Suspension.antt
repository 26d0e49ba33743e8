-- ===== src/Ledger/Validators/Suspension.antt =====
-- What a suspension does (ledger/validator.go).
use hyperlux_chain.Prelude.{
  ◌≡◌, ◌≢◌, ◌∙◌, subst, not, ◌&&◌, some, arith, Option-cases, inl, inr, ite,
}
use hyperlux_chain.Prelude.Int.{ℤ, ◌+ℤ◌, leb_ℤ}
use hyperlux_chain.Prelude.Str.{Str, Str_discrete}
use hyperlux_chain.Prelude.Dict.{lookup, lookup-insert_self, lookup-insert_ne}
use hyperlux_chain.Ledger.Types.{State, SuspensionScope, ValidatorRuntime}
use hyperlux_chain.Ledger.Validators.{
  unix, is_suspended, scope_bars, suspend_validator, get_or_create_runtime,
}

module _ (now : ℤ) (addr : Str) (scope : SuspensionScope) (dur : ℤ) (s : State) where
  abbrev written : ValidatorRuntime
  written = record { suspended_until = unix (now +ℤ dur); suspend_scope = scope }

  lookup-suspend_self :
      lookup addr (suspend_validator now addr scope dur s).validator_status ≡ some written
  unfolding suspend_validator
  lookup-suspend_self = lookup-insert_self addr written _

  lookup-get_or_create :
      (a : Str)
      → addr ≢ a
      → lookup a (get_or_create_runtime addr s).1.validator_status ≡ lookup a s.validator_status
  unfolding get_or_create_runtime
  lookup-get_or_create a ne = elim (Option-cases (lookup addr s.validator_status)) [
    | inl e ↦ rw (e, get_or_create_runtime) (lookup-insert_ne addr a _ s.validator_status ne)
    | inr (rt, e) ↦ rw (e, get_or_create_runtime)
  ]

  lookup-suspend_ne :
      (a : Str)
      → addr ≢ a
      → lookup a (suspend_validator now addr scope dur s).validator_status
        ≡ lookup a s.validator_status
  unfolding suspend_validator
  lookup-suspend_ne a ne = lookup-insert_ne addr a written _ ne ∙ lookup-get_or_create a ne

  -- After SuspendValidator the validator is suspended exactly from what the scope bars, and until
  -- the second in which the duration ends, whatever suspension it had before; any other validator
  -- is suspended as it was.
  pub is_suspended-suspend_validator :
      (later : ℤ) (a : Str) (need : SuspensionScope)
      → is_suspended later a need (suspend_validator now addr scope dur s)
        ≡ ite
            (Str_discrete addr a)
            (not (leb_ℤ (unix (now +ℤ dur)) (unix later)) && scope_bars scope need)
            (is_suspended later a need s)
  unfolding is_suspended
  is_suspended-suspend_validator later a need = elim (Str_discrete addr a) [
    | yes e ↦
        rw
          (
            (subst
                (λ z.
                  lookup z (suspend_validator now addr scope dur s).validator_status ≡ some written)
                e lookup-suspend_self),
            is_suspended,
          )
          (ground arith)
    | no ne ↦ rw (lookup-suspend_ne a ne, is_suspended) (ground arith)
  ]
