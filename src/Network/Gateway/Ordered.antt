-- ===== src/Network/Gateway/Ordered.antt =====
-- The shards of network/network.go keep each sender's order.
use mathlib.Core.List.{Sublistᴰ, append-nil}
use hyperlux_chain.Prelude.{
  ℕ, ◌≤◌, ◌<◌, ◌≡◌, ◌≢◌, refl, sym, ap, subst, ◌∙◌, inl, inr, true, List, [], ◌∷◌, ◌++◌, length,
  ite, ◌==◌, All, arith, Bool-cases, ℕ_discrete,
}
use hyperlux_chain.Prelude.Str.{Str, Str_discrete}
use hyperlux_chain.Ledger.Types.{Transaction}
use hyperlux_chain.Network.Gateway.Channels.{
  shard_at, shard_at-empty_channels, length-empty_channels, Sent, Taken,
}
use hyperlux_chain.Network.Gateway.{Shards, shard_for, empty_channels, start_ingress}

-- The transactions of one sender.
unfoldable pub of_sender : Str → List Transaction → List Transaction
of_sender a [] = []
of_sender a (tx ∷ txs) = let rest = of_sender a txs in ite (Str_discrete tx.from a) (tx ∷ rest) rest

pub of_sender-append :
    (a : Str) (xs ys : List Transaction) → of_sender a (xs ++ ys) ≡ of_sender a xs ++ of_sender a ys
unfolding of_sender
of_sender-append a [] ys = refl
of_sender-append a (x ∷ xs) ys = grind (arith, of_sender-append a xs ys)

of_sender_other : (a : Str) (tx : Transaction) → tx.from ≢ a → of_sender a (tx ∷ []) ≡ []
unfolding of_sender
of_sender_other a tx h = ground (arith, h)

-- What waits of one sender.
abbrev pub waiting : Str → Shards → List Transaction
waiting a sh = of_sender a (shard_at (shard_for sh.num_shards a) sh.shard_ch)

-- Each transaction waits in its sender's channel, no channel is over its capacity, and of every
-- sender what was handed on and what still waits came in in this order.
pub record IsOrdered (sh : Shards) (ins outs : List Transaction) : Type 0 where
  pub sized : length sh.shard_ch ≡ sh.num_shards
  pub routed :
      (i : ℕ)
      → All (λ (tx : Transaction). shard_for sh.num_shards tx.from ≡ i) (shard_at i sh.shard_ch)
  pub bounded : (i : ℕ) → length (shard_at i sh.shard_ch) ≤ 4096
  pub ordered : (a : Str) → Sublistᴰ (of_sender a outs ++ waiting a sh) (of_sender a ins)

shard_at-none : (i : ℕ) (qs : List (List Transaction)) → length qs ≡ 0 → shard_at i qs ≡ []
unfolding shard_at
shard_at-none i [] e = refl
shard_at-none i (q ∷ qs) e = cc

fresh_shards : ℕ → Shards
fresh_shards n = record { num_shards = n; shard_ch = empty_channels n }

fresh_shards-IsOrdered :
    (n : ℕ) (sh : Shards) (ins outs : List Transaction)
    → sh.num_shards ≡ 0
    → IsOrdered sh ins outs
    → IsOrdered (fresh_shards n) ins outs
unfolding fresh_shards of_sender
fresh_shards-IsOrdered n sh ins outs z o = record {
  sized = length-empty_channels n;
  routed = λ i. rw (shard_at-empty_channels i n) tt;
  bounded = λ i. rw (shard_at-empty_channels i n) (omega arith);
  ordered = λ a. rw (shard_at-empty_channels (shard_for n a) n) (
      subst (λ q. Sublistᴰ (of_sender a outs ++ of_sender a q) (of_sender a ins))
        (shard_at-none _ sh.shard_ch (o.sized ∙ z)) (o.ordered a));
}

pub start_ingress-IsOrdered :
    (ncpu : ℕ) (sh : Shards) (ins outs : List Transaction)
    → IsOrdered sh ins outs
    → IsOrdered (start_ingress ncpu sh) ins outs
unfolding start_ingress fresh_shards
start_ingress-IsOrdered ncpu sh ins outs o = elim (Bool-cases (sh.num_shards == 0)) [
  | inl e ↦ rw e (fresh_shards-IsOrdered _ sh ins outs (ground (arith, e)) o)
  | inr e ↦ rw e o
]

pub start_ingress_pos : (ncpu : ℕ) (sh : Shards) → 0 < (start_ingress ncpu sh).num_shards
unfolding start_ingress
start_ingress_pos ncpu sh = ground arith

-- A change of one channel by one sender's transaction.
module _ (n : ℕ) (tx : Transaction) (a : Str) where
  of_sender_elsewhere : shard_for n a ≢ shard_for n tx.from → of_sender a (tx ∷ []) ≡ []
  of_sender_elsewhere h = of_sender_other a tx (λ e. h (ap (shard_for n) (sym e)))

  pub waiting-Sent :
      (qs qs' : List (List Transaction))
      → Sent (shard_for n tx.from) tx qs true qs'
      → of_sender a (shard_at (shard_for n a) qs')
        ≡ of_sender a (shard_at (shard_for n a) qs) ++ of_sender a (tx ∷ [])
  waiting-Sent qs qs' s = elim (ℕ_discrete (shard_for n a) (shard_for n tx.from)) [
    | yes e ↦ rw (e, s.there) (of_sender-append a _ (tx ∷ []))
    | no ne ↦ rw (s.others _ ne, of_sender_elsewhere ne) (sym (append-nil _))
  ]

  pub waiting-Taken :
      (qs qs' : List (List Transaction))
      → Taken (shard_for n tx.from) qs tx qs'
      → of_sender a (shard_at (shard_for n a) qs)
        ≡ of_sender a (tx ∷ []) ++ of_sender a (shard_at (shard_for n a) qs')
  waiting-Taken qs qs' s = elim (ℕ_discrete (shard_for n a) (shard_for n tx.from)) [
    | yes e ↦ rw (e, s.there) (of_sender-append a (tx ∷ []) _)
    | no ne ↦ rw (s.others _ ne, of_sender_elsewhere ne)
  ]

pub no_shards-IsOrdered : IsOrdered (record { num_shards = 0; shard_ch = [] }) [] []
unfolding shard_at of_sender
no_shards-IsOrdered = record {
  sized = refl;
  routed = λ i. tt;
  bounded = λ i. omega arith;
  ordered = λ a. Sublistᴰ.slnil;
}
