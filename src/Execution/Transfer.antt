-- ===== src/Execution/Transfer.antt =====
-- What ExecuteTransfer keeps.
use hyperlux_chain.Prelude.{◌^◌, ◌≡◌, refl, arith, Bool-cases, inl, inr}
use hyperlux_chain.Prelude.Int.{ℤ, pos, ◌≤ℤ◌, ◌<ℤ◌, leb_ℤ, int_laws, eq_le, eq_of_parts}
use hyperlux_chain.Prelude.Word64.{sub64, sub64_exact}
use hyperlux_chain.Prelude.Str.{Str}
use hyperlux_chain.Prelude.Dict.{
  Dict, get, insert, total, IsSolvent, total-insert, total-deposit, insert-IsSolvent, get_nonneg,
  get-le-total,
}
use hyperlux_chain.Execution.{execute_transfer}

-- When no balance is negative and together they fit an `int`, a transfer of an amount that is not
-- negative leaves no balance negative and their sum as it was, whether it is executed or refused.
pub execute_transfer-total :
    (from to : Str) (amount : ℤ) (balances : Dict ℤ)
    → IsSolvent balances
    → total balances <ℤ pos (2 ^ 63)
    → pos 0 ≤ℤ amount
    → IsSolvent (execute_transfer from to amount balances).1
      × (total (execute_transfer from to amount balances).1 ≡ total balances)
unfolding execute_transfer
execute_transfer-total from to amount balances h room p =
    elim (Bool-cases (leb_ℤ amount (get from balances))) [
      | inr e ↦ rw e (h, refl)
      | inl e ↦ rw e (
          let low = get_nonneg from balances h in
          let top = get-le-total from balances h in
          let enough : amount ≤ℤ get from balances = ground arith in
          let exact = sub64_exact (get from balances) amount (omega int_laws) in
          let left = sub64 (get from balances) amount in
          let moved = total-insert from left balances in
          let paid =
            total-deposit to amount (insert from left balances)
              (insert-IsSolvent from left balances (omega (int_laws, eq_le exact)) h) p
              (omega (int_laws, eq_le moved, eq_le exact)) in
          (paid.0, eq_of_parts _ _ (omega (int_laws, eq_le paid.1, eq_le moved, eq_le exact))))
    ]
