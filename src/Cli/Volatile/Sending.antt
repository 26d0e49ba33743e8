-- ===== src/Cli/Volatile/Sending.antt =====
-- The commands of cli/cli.go that send transactions write nothing to the store.
use hyperlux_chain.Prelude.{
  ℕ, zero, suc, ◌≡◌, refl, subst, inl, inr, Bool, true, false, Option, none, some, List, [], ◌∷◌,
  arith, Option-cases,
}
use hyperlux_chain.Prelude.Int.{ℤ, pos, pos_part}
use hyperlux_chain.Prelude.Str.{Str}
use hyperlux_chain.Primitives.{Primitives}
use hyperlux_chain.Ledger.Types.{State, Disk, Wallet, Transaction}
use hyperlux_chain.Ledger.Transaction.{
  Ingest, accepted, insufficient_balance, invalid_signature, invalid_nonce,
  validate_and_add_to_mempool, ingest_signed, new_transaction,
}
use hyperlux_chain.Wallet.{load_wallet}
use hyperlux_chain.Cli.{Libraries, Inputs, Machine}
use hyperlux_chain.Cli.Args.{atoi}
use hyperlux_chain.Cli.Spam.{
  ledger_of, ingested, send, end_sent, send_times, spam, end_spam, handle_tx, handle_tx_bulk,
  handle_tx_bulk_random_parallel, handle_tx_bulk_multi,
}
use hyperlux_chain.Cli.Volatile.Untouched.{
  IsUntouched, new_process-with_ledger, returned-IsUntouched, fatal-IsUntouched,
  panicked-IsUntouched, if-IsUntouched, loaded-IsUntouched,
}

-- A result that has not written to the store.
abbrev KeepsDisk : Disk → Option (Bool × State) → Type 0
KeepsDisk d none = Unit
KeepsDisk d (some (fine, s)) = s.disk ≡ d

ingested-KeepsDisk : (d : Disk) (r : Ingest × State) → r.1.disk ≡ d → KeepsDisk d (ingested r)
unfolding ingested
ingested-KeepsDisk d (Ingest.panicked, s) e = tt
ingested-KeepsDisk d (accepted, s) e = e
ingested-KeepsDisk d (insufficient_balance, s) e = e
ingested-KeepsDisk d (invalid_signature, s) e = e
ingested-KeepsDisk d (invalid_nonce x g, s) e = e

ingest_signed-disk :
    (v : Option Bool) (t : Transaction) (s : State) → (ingest_signed v t s).1.disk ≡ s.disk
unfolding ingest_signed
ingest_signed-disk none t s = refl
ingest_signed-disk (some false) t s = refl
ingest_signed-disk (some true) t s = refl

validate-disk :
    (c : Primitives) (t : Transaction) (s : State)
    → (validate_and_add_to_mempool c t s).1.disk ≡ s.disk
unfolding validate_and_add_to_mempool
validate-disk c t s = grind (arith, ingest_signed-disk)

send-KeepsDisk :
    (c : Primitives) (w : Wallet) (to : Str) (amount : ℤ) (s : State)
    → KeepsDisk s.disk (send c w to amount s)
unfolding send
send-KeepsDisk c w to amount s = elim (Option-cases (new_transaction c w to amount s)) [
  | inl e ↦ rw (e, send) tt
  | inr (t, e) ↦ rw (e, send) (ingested-KeepsDisk s.disk _ (validate-disk c t s))
]

send_times-KeepsDisk :
    (c : Primitives) (w : Wallet) (to : Str) (n : ℕ) (s : State)
    → KeepsDisk s.disk (send_times c w to n s)
unfolding send_times
send_times-KeepsDisk c w to zero s = refl
send_times-KeepsDisk c w to (suc n) s =
    let kept = send-KeepsDisk c w to (pos 1) s in
    elim (Option-cases (send c w to (pos 1) s)) [
      | inl e ↦ rw (e, send_times) tt
      | inr ((false, s'), e) ↦ rw (e, send_times) (subst (KeepsDisk s.disk) e kept)
      | inr ((true, s'), e) ↦
          rw (e, send_times)
            (subst (λ d. KeepsDisk d (send_times c w to n s')) (subst (KeepsDisk s.disk) e kept)
              (send_times-KeepsDisk c w to n s'))
    ]

abbrev SpamKeepsDisk : Disk → Option State → Type 0
SpamKeepsDisk d none = Unit
SpamKeepsDisk d (some s) = s.disk ≡ d

spam-KeepsDisk :
    (c : Primitives) (jobs : List (Wallet × Str)) (s : State) → SpamKeepsDisk s.disk (spam c jobs s)
unfolding spam
spam-KeepsDisk c [] s = refl
spam-KeepsDisk c ((w, to) ∷ jobs) s =
    let kept = send-KeepsDisk c w to (pos 1) s in
    elim (Option-cases (send c w to (pos 1) s)) [
      | inl e ↦ rw (e, spam) tt
      | inr ((fine, s'), e) ↦
          rw (e, spam)
            (subst (λ d. SpamKeepsDisk d (spam c jobs s')) (subst (KeepsDisk s.disk) e kept)
              (spam-KeepsDisk c jobs s'))
    ]

end_sent-IsUntouched :
    (m : Machine) (o : Option (Bool × State))
    → KeepsDisk m.node.ledger.disk o
    → IsUntouched m (end_sent m o)
unfolding end_sent IsUntouched
end_sent-IsUntouched m none k = refl
end_sent-IsUntouched m (some (true, s)) k = new_process-with_ledger m s k
end_sent-IsUntouched m (some (false, s)) k = new_process-with_ledger m s k

end_spam-IsUntouched :
    (m : Machine) (o : Option State)
    → SpamKeepsDisk m.node.ledger.disk o
    → IsUntouched m (end_spam m o)
unfolding end_spam IsUntouched
end_spam-IsUntouched m none k = refl
end_spam-IsUntouched m (some s) k = new_process-with_ledger m s k

pub handle_tx-IsUntouched :
    (lib : Libraries) (args : List Str) (m : Machine) → IsUntouched m (handle_tx lib args m)
unfolding handle_tx
handle_tx-IsUntouched lib [] m = returned-IsUntouched m
handle_tx-IsUntouched lib (a ∷ []) m = returned-IsUntouched m
handle_tx-IsUntouched lib (a ∷ b ∷ []) m = returned-IsUntouched m
handle_tx-IsUntouched lib (a ∷ b ∷ d ∷ []) m = returned-IsUntouched m
handle_tx-IsUntouched lib (sub ∷ to ∷ amount ∷ file ∷ more) m =
    if-IsUntouched m _ _ _ (returned-IsUntouched m) (
      if-IsUntouched m _ _ _ (fatal-IsUntouched m) (
        loaded-IsUntouched m (load_wallet lib.keys file m.files) _ (λ w.
          end_sent-IsUntouched m _
            (send-KeepsDisk lib.primitives w to (atoi amount).0 (ledger_of m)))))

pub handle_tx_bulk-IsUntouched :
    (lib : Libraries) (args : List Str) (m : Machine) → IsUntouched m (handle_tx_bulk lib args m)
unfolding handle_tx_bulk
handle_tx_bulk-IsUntouched lib [] m = returned-IsUntouched m
handle_tx_bulk-IsUntouched lib (a ∷ []) m = returned-IsUntouched m
handle_tx_bulk-IsUntouched lib (a ∷ b ∷ []) m = returned-IsUntouched m
handle_tx_bulk-IsUntouched lib (count ∷ to ∷ file ∷ more) m =
    loaded-IsUntouched m (load_wallet lib.keys file m.files) _ (λ w.
      end_sent-IsUntouched m _
        (send_times-KeepsDisk lib.primitives w to (pos_part (atoi count).0) (ledger_of m)))

pub handle_tx_bulk_random_parallel-IsUntouched :
    (lib : Libraries) (inp : Inputs) (args : List Str) (m : Machine)
    → IsUntouched m (handle_tx_bulk_random_parallel lib inp args m)
unfolding handle_tx_bulk_random_parallel
handle_tx_bulk_random_parallel-IsUntouched lib inp [] m = returned-IsUntouched m
handle_tx_bulk_random_parallel-IsUntouched lib inp (a ∷ []) m = returned-IsUntouched m
handle_tx_bulk_random_parallel-IsUntouched lib inp (a ∷ b ∷ []) m = returned-IsUntouched m
handle_tx_bulk_random_parallel-IsUntouched lib inp (count ∷ file ∷ workers ∷ more) m =
    loaded-IsUntouched m (load_wallet lib.keys file m.files) _ (λ w.
      if-IsUntouched m _ _ _ (panicked-IsUntouched m) (
        if-IsUntouched m _ _ _ (returned-IsUntouched m)
          (end_spam-IsUntouched m _ (spam-KeepsDisk lib.primitives _ (ledger_of m)))))

pub handle_tx_bulk_multi-IsUntouched :
    (lib : Libraries) (inp : Inputs) (args : List Str) (m : Machine)
    → IsUntouched m (handle_tx_bulk_multi lib inp args m)
unfolding handle_tx_bulk_multi
handle_tx_bulk_multi-IsUntouched lib inp [] m = returned-IsUntouched m
handle_tx_bulk_multi-IsUntouched lib inp (a ∷ []) m = returned-IsUntouched m
handle_tx_bulk_multi-IsUntouched lib inp (wallet_count ∷ per_wallet ∷ more) m =
    if-IsUntouched m _ _ _ (fatal-IsUntouched m) (
      if-IsUntouched m _ _ _ (panicked-IsUntouched m)
        (end_spam-IsUntouched m _ (spam-KeepsDisk lib.primitives _ (ledger_of m))))
