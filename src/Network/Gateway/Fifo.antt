-- ===== src/Network/Gateway/Fifo.antt =====
-- The order in which the gateway of network/network.go hands on transactions.
use hyperlux_chain.Prelude.{
  ℕ, ◌<◌, ◌≡◌, ◌≢◌, refl, sym, subst, inl, inr, Bool, true, false, Option, none, some, List, [],
  ◌∷◌, ◌++◌, arith, Bool-cases, length, ◌%◌, ◌^◌, ◌∙◌,
}
use hyperlux_chain.Prelude.Int.{ℤ}
use hyperlux_chain.Prelude.Str.{Str}
use hyperlux_chain.Ledger.Types.{Transaction, ValidatorDef}
use hyperlux_chain.Network.Gateway.Channels.{Sends, try_send-Sends, Takes, take_next-Takes}
use hyperlux_chain.Network.Gateway.Counts.{Counts, gateway_accept-Counts, next_count-length}
use hyperlux_chain.Network.Gateway.Ordered.{
  IsOrdered, start_ingress-IsOrdered, start_ingress_pos, no_shards-IsOrdered,
}
use hyperlux_chain.Network.Gateway.Moves.{with_channels, Sent-IsOrdered, Taken-IsOrdered}
use hyperlux_chain.Network.Gateway.{
  Floats, Role, Gateway, Lane, lane_fast, lane_normal, lane_slow, shard_for, start_ingress,
  try_send, allow_lane, lane_for, fresh_gateway, enqueue_shard, gateway_accept_tx, take_next,
  count_accepted, is_public,
}

shard_for-lt : (n : ℕ) (key : Str) → 0 < n → shard_for n key < n
unfolding shard_for
shard_for-lt n key h = omega arith

module _ (o : Floats) where
  allow_lane-shards :
      (now : ℤ) (l : Lane × o.Float) (g : Gateway o) → (allow_lane o now l g).1.shards ≡ g.shards
  unfolding allow_lane
  allow_lane-shards now (lane_fast, w) g = refl
  allow_lane-shards now (lane_normal, w) g = refl
  allow_lane-shards now (lane_slow, w) g = refl

  -- A queued or a dropped transaction; never a panic.
  abbrev Enqueued : List Transaction → List Transaction → Option (Gateway o) → Type 0
  Enqueued ins outs none = ⊥
  Enqueued ins outs (some g) = IsOrdered g.shards ins outs

  Sends-Enqueued :
      (ncpu : ℕ) (tx : Transaction) (g : Gateway o) (ins outs : List Transaction)
      (r : Option (Bool × List (List Transaction)))
      → let sh = start_ingress ncpu g.shards in
        IsOrdered sh ins outs
        → try_send (shard_for sh.num_shards tx.from) tx sh.shard_ch ≡ r
        → Sends (shard_for sh.num_shards tx.from) tx sh.shard_ch r
        → Enqueued (ins ++ (tx ∷ [])) outs (enqueue_shard o ncpu tx g)
  unfolding enqueue_shard with_channels
  Sends-Enqueued ncpu tx g ins outs none inv e s = absurd s
  Sends-Enqueued ncpu tx g ins outs (some (room, qs)) inv e s =
      rw (e, enqueue_shard) (Sent-IsOrdered (start_ingress ncpu g.shards) ins outs inv tx room qs s)

  enqueue_shard-Enqueued :
      (ncpu : ℕ) (tx : Transaction) (g : Gateway o) (ins outs : List Transaction)
      → IsOrdered g.shards ins outs
      → Enqueued (ins ++ (tx ∷ [])) outs (enqueue_shard o ncpu tx g)
  enqueue_shard-Enqueued ncpu tx g ins outs inv =
      let sh = start_ingress ncpu g.shards in
      let started = start_ingress-IsOrdered ncpu g.shards ins outs inv in
      let i = shard_for sh.num_shards tx.from in
      let inside = shard_for-lt sh.num_shards tx.from (start_ingress_pos ncpu g.shards) in
      Sends-Enqueued ncpu tx g ins outs (try_send i tx sh.shard_ch) started refl
        (try_send-Sends i tx sh.shard_ch (subst (◌<◌ i) (sym started.sized) inside))

  -- What the gateway answers, and what is in order afterwards.
  abbrev Answers :
      Transaction → List Transaction → List Transaction → Option (Bool × Gateway o) → Type 0
  Answers tx ins outs none = ⊥
  Answers tx ins outs (some (true, g)) = IsOrdered g.shards (ins ++ (tx ∷ [])) outs
  Answers tx ins outs (some (false, g)) = IsOrdered g.shards ins outs

  counted-Answers :
      (tx : Transaction) (ins outs : List Transaction) (r : Option (Gateway o))
      → Enqueued (ins ++ (tx ∷ [])) outs r
      → Answers tx ins outs (count_accepted o r)
  counted-Answers tx ins outs none h = h
  counted-Answers tx ins outs (some g) h = h

  gateway_accept-Answers :
      (ncpu : ℕ) (now : ℤ) (vs : List ValidatorDef) (tx : Transaction) (g : Gateway o)
      (ins outs : List Transaction)
      → IsOrdered g.shards ins outs
      → Answers tx ins outs (gateway_accept_tx o ncpu now vs tx g)
  unfolding gateway_accept_tx
  gateway_accept-Answers ncpu now vs tx g ins outs inv =
      let l = lane_for o vs tx in
      let same = allow_lane-shards now l g in
      let inv' = subst (λ sh. IsOrdered sh ins outs) (sym same) inv in
      elim (Bool-cases (is_public g.current_role)) [
        | inl e ↦ rw e (elim (Bool-cases (allow_lane o now l g).0) [
          | inl f ↦
              rw f (counted-Answers tx ins outs _ (enqueue_shard-Enqueued ncpu tx _ ins outs inv'))
          | inr f ↦ rw f inv'
        ])
        | inr e ↦
            rw e (counted-Answers tx ins outs _ (enqueue_shard-Enqueued ncpu tx g ins outs inv))
      ]

  -- The states in which the gateway can be, with the transactions that it accepted and those that
  -- its shards handed on, each in order: calls, at any clock readings and stakes, and receives of
  -- the shards' goroutines come in any order.
  pub data Reach (ncpu : ℕ) : Gateway o → List Transaction → List Transaction → Type 0 where
    fresh : (now : ℤ) (role : Role) → Reach ncpu (fresh_gateway o now role) [] []
    refused :
        {g g' : Gateway o} {ins outs : List Transaction} (now : ℤ) (vs : List ValidatorDef)
        (tx : Transaction)
        → Reach ncpu g ins outs
        → gateway_accept_tx o ncpu now vs tx g ≡ some (false, g')
        → Reach ncpu g' ins outs
    admitted :
        {g g' : Gateway o} {ins outs : List Transaction} (now : ℤ) (vs : List ValidatorDef)
        (tx : Transaction)
        → Reach ncpu g ins outs
        → gateway_accept_tx o ncpu now vs tx g ≡ some (true, g')
        → Reach ncpu g' (ins ++ (tx ∷ [])) outs
    handed_on :
        {g : Gateway o} {ins outs : List Transaction} {qs : List (List Transaction)} (i : ℕ)
        (tx : Transaction)
        → Reach ncpu g ins outs
        → take_next i g.shards.shard_ch ≡ some (tx, qs)
        → Reach ncpu (record g { shards = with_channels g.shards qs }) ins (outs ++ (tx ∷ []))

  Reach-IsOrdered :
      {ncpu : ℕ} {g : Gateway o} {ins outs : List Transaction}
      → Reach ncpu g ins outs
      → IsOrdered g.shards ins outs
  unfolding fresh_gateway
  Reach-IsOrdered (fresh now role) = no_shards-IsOrdered
  Reach-IsOrdered (refused {g} {ins = ins} {outs} now vs tx r e) =
      subst (Answers tx ins outs) e
        (gateway_accept-Answers _ now vs tx g ins outs (Reach-IsOrdered r))
  Reach-IsOrdered (admitted {g} {ins = ins} {outs} now vs tx r e) =
      subst (Answers tx ins outs) e
        (gateway_accept-Answers _ now vs tx g ins outs (Reach-IsOrdered r))
  Reach-IsOrdered (handed_on {g} {ins} {outs} i tx r e) =
      Taken-IsOrdered g.shards ins outs (Reach-IsOrdered r) i tx _
        (subst (Takes i g.shards.shard_ch) e (take_next-Takes i g.shards.shard_ch))

  Reach-accepted :
      {ncpu : ℕ} {g : Gateway o} {ins outs : List Transaction}
      → Reach ncpu g ins outs
      → g.ingress_accepted ≡ length ins % 2 ^ 64
  unfolding fresh_gateway
  Reach-accepted (fresh now role) = refl
  Reach-accepted (refused {g} now vs tx r e) =
      subst (Counts o g.ingress_accepted) e (gateway_accept-Counts o _ now vs tx g)
      ∙ Reach-accepted r
  Reach-accepted (admitted {g} {ins = ins} now vs tx r e) =
      subst (Counts o g.ingress_accepted) e (gateway_accept-Counts o _ now vs tx g)
      ∙ next_count-length g.ingress_accepted ins tx (Reach-accepted r)
  Reach-accepted (handed_on i tx r e) = Reach-accepted r

  -- In every state of the gateway that calls and receives lead to, in whatever order they come:
  -- each transaction waits in its sender's channel, no channel is over its capacity of 4096, and
  -- what was handed on and what waits of any one sender is, in this order, part of what was
  -- accepted of that sender. The counter of accepted transactions is the number of calls that
  -- returned no error, modulo 2^64. And no further call panics.
  pub gateway_fifo :
      (ncpu : ℕ) (g : Gateway o) (ins outs : List Transaction)
      → Reach ncpu g ins outs
      → IsOrdered g.shards ins outs
        × (g.ingress_accepted ≡ length ins % 2 ^ 64)
        × ((now : ℤ) (vs : List ValidatorDef) (tx : Transaction)
            → gateway_accept_tx o ncpu now vs tx g ≢ none)
  gateway_fifo ncpu g ins outs r = (
    Reach-IsOrdered r,
    Reach-accepted r,
    λ now vs tx e.
        subst (Answers tx ins outs) e
          (gateway_accept-Answers ncpu now vs tx g ins outs (Reach-IsOrdered r)),
  )
