-- ===== src/Network/Gateway/Counts.antt =====
-- What GatewayAcceptTx (network/network.go) adds to the counter of accepted transactions.
use hyperlux_chain.Prelude.{
  ℕ, ◌%◌, ◌^◌, ◌≡◌, refl, ap, inl, inr, Bool, true, false, Option, none, some, List, [], ◌∷◌, ◌++◌,
  length, length-append, arith, Bool-cases, Option-cases,
}
use hyperlux_chain.Prelude.Int.{ℤ}
use hyperlux_chain.Ledger.Types.{Transaction, ValidatorDef}
use hyperlux_chain.Network.Gateway.{
  Floats, Gateway, Lane, lane_fast, lane_normal, lane_slow, start_ingress, shard_for, try_send,
  next_count, allow_lane, lane_for, enqueue_shard, count_accepted, is_public, gateway_accept_tx,
}

module _ (o : Floats) where
  allow_lane-accepted :
      (now : ℤ) (l : Lane × o.Float) (g : Gateway o)
      → (allow_lane o now l g).1.ingress_accepted ≡ g.ingress_accepted
  unfolding allow_lane
  allow_lane-accepted now (lane_fast, w) g = refl
  allow_lane-accepted now (lane_normal, w) g = refl
  allow_lane-accepted now (lane_slow, w) g = refl

  -- One more after an answer without an error, else as many as before.
  abbrev pub Counts : ℕ → Option (Bool × Gateway o) → Type 0
  Counts n none = Unit
  Counts n (some (true, g)) = g.ingress_accepted ≡ next_count n
  Counts n (some (false, g)) = g.ingress_accepted ≡ n

  enqueued-Counts :
      (ncpu : ℕ) (tx : Transaction) (n : ℕ) (g : Gateway o)
      → g.ingress_accepted ≡ n
      → Counts n (count_accepted o (enqueue_shard o ncpu tx g))
  unfolding enqueue_shard
  enqueued-Counts ncpu tx n g e =
      let sh = start_ingress ncpu g.shards in
      elim (Option-cases (try_send (shard_for sh.num_shards tx.from) tx sh.shard_ch)) [
        | inl f ↦ rw (f, enqueue_shard) tt
        | inr ((room, qs), f) ↦ rw (f, enqueue_shard) (ap next_count e)
      ]

  pub gateway_accept-Counts :
      (ncpu : ℕ) (now : ℤ) (vs : List ValidatorDef) (tx : Transaction) (g : Gateway o)
      → Counts g.ingress_accepted (gateway_accept_tx o ncpu now vs tx g)
  unfolding gateway_accept_tx
  gateway_accept-Counts ncpu now vs tx g =
      let l = lane_for o vs tx in
      let same = allow_lane-accepted now l g in
      elim (Bool-cases (is_public g.current_role)) [
        | inl e ↦ rw e (elim (Bool-cases (allow_lane o now l g).0) [
          | inl f ↦ rw f (enqueued-Counts ncpu tx g.ingress_accepted (allow_lane o now l g).1 same)
          | inr f ↦ rw f same
        ])
        | inr e ↦ rw e (enqueued-Counts ncpu tx g.ingress_accepted g refl)
      ]

pub next_count-length :
    (n : ℕ) (txs : List Transaction) (tx : Transaction)
    → n ≡ length txs % 2 ^ 64
    → next_count n ≡ length (txs ++ (tx ∷ [])) % 2 ^ 64
next_count-length n txs tx e = omega (arith, e, length-append txs (tx ∷ []))
