-- ===== src/Network/Gateway/Moves.antt =====
-- A send to a shard's channel and a receive keep each sender's order (network/network.go).
use mathlib.Core.List.{Sublistᴰ, append_assoc}
use hyperlux_chain.Prelude.{
  ℕ, ◌≤◌, ◌≡◌, refl, sym, subst, ◌∙◌, Bool, true, false, List, [], ◌∷◌, ◌++◌, length, Sublist-wider,
  Sublist-longer, if◌then◌else◌, All, All-append, arith, ℕ_discrete,
}
use hyperlux_chain.Prelude.Str.{Str}
use hyperlux_chain.Ledger.Types.{Transaction}
use hyperlux_chain.Network.Gateway.Channels.{shard_at, Sent, Taken}
use hyperlux_chain.Network.Gateway.{Shards, shard_for}
use hyperlux_chain.Network.Gateway.Ordered.{
  IsOrdered, of_sender, of_sender-append, waiting, waiting-Sent, waiting-Taken,
}

unfoldable pub with_channels : Shards → List (List Transaction) → Shards
with_channels sh qs = record sh { shard_ch = qs }

full-same :
    (i : ℕ) (tx : Transaction) (qs qs' : List (List Transaction))
    → Sent i tx qs false qs'
    → (j : ℕ) → shard_at j qs' ≡ shard_at j qs
full-same i tx qs qs' s j = elim (ℕ_discrete j i) [
  | yes e ↦ rw (e, s.there)
  | no ne ↦ s.others j ne
]

module _ (sh : Shards) (ins outs : List Transaction) (o : IsOrdered sh ins outs) where
  routed_there :
      (tx : Transaction) (room : Bool)
      → let i = shard_for sh.num_shards tx.from in
        let q = shard_at i sh.shard_ch in
        All
          (λ (t : Transaction). shard_for sh.num_shards t.from ≡ i)
          (if room then q ++ (tx ∷ []) else q)
  routed_there tx true =
      All-append _ (shard_at (shard_for sh.num_shards tx.from) sh.shard_ch) (tx ∷ []) (o.routed _)
        (refl, tt)
  routed_there tx false = o.routed _

  Sent-routed :
      (tx : Transaction) (room : Bool) (qs : List (List Transaction))
      → Sent (shard_for sh.num_shards tx.from) tx sh.shard_ch room qs
      → (i : ℕ) → All (λ (t : Transaction). shard_for sh.num_shards t.from ≡ i) (shard_at i qs)
  Sent-routed tx room qs s i = elim (ℕ_discrete i (shard_for sh.num_shards tx.from)) [
    | yes e ↦ rw (e, s.there) (routed_there tx room)
    | no ne ↦ rw (s.others i ne) (o.routed i)
  ]

  Sent-bounded :
      (j : ℕ) (tx : Transaction) (room : Bool) (qs : List (List Transaction))
      → Sent j tx sh.shard_ch room qs
      → (i : ℕ) → length (shard_at i qs) ≤ 4096
  Sent-bounded j tx room qs s i = elim (ℕ_discrete i j) [
    | yes e ↦ rw e (s.small (o.bounded j))
    | no ne ↦ rw (s.others i ne) (o.bounded i)
  ]

  Sent-ordered :
      (tx : Transaction) (qs : List (List Transaction))
      → Sent (shard_for sh.num_shards tx.from) tx sh.shard_ch true qs
      → (a : Str)
      → Sublistᴰ
          (of_sender a outs ++ of_sender a (shard_at (shard_for sh.num_shards a) qs))
          (of_sender a (ins ++ (tx ∷ [])))
  Sent-ordered tx qs s a =
      rw
        (
          waiting-Sent sh.num_shards tx a sh.shard_ch qs s,
          of_sender-append a ins (tx ∷ []),
          sym (append_assoc (of_sender a outs) (waiting a sh) (of_sender a (tx ∷ []))),
        )
        (Sublist-longer (of_sender a (tx ∷ [])) (o.ordered a))

  pub Sent-IsOrdered :
      (tx : Transaction) (room : Bool) (qs : List (List Transaction))
      → Sent (shard_for sh.num_shards tx.from) tx sh.shard_ch room qs
      → IsOrdered (with_channels sh qs) (ins ++ (tx ∷ [])) outs
  unfolding with_channels
  Sent-IsOrdered tx true qs s = record {
    sized = s.lengths ∙ o.sized;
    routed = Sent-routed tx true qs s;
    bounded = Sent-bounded _ tx true qs s;
    ordered = Sent-ordered tx qs s;
  }
  Sent-IsOrdered tx false qs s = record {
    sized = s.lengths ∙ o.sized;
    routed = Sent-routed tx false qs s;
    bounded = Sent-bounded _ tx false qs s;
    ordered = λ a.
        rw
          (
            full-same _ tx sh.shard_ch qs s (shard_for sh.num_shards a),
            of_sender-append a ins (tx ∷ []),
          )
          (Sublist-wider (of_sender a (tx ∷ [])) (o.ordered a));
  }

  Taken-head :
      (i : ℕ) (tx : Transaction) (qs : List (List Transaction))
      → Taken i sh.shard_ch tx qs
      → All (λ (t : Transaction). shard_for sh.num_shards t.from ≡ i) (tx ∷ shard_at i qs)
  Taken-head i tx qs s =
      subst (All (λ (t : Transaction). shard_for sh.num_shards t.from ≡ i)) s.there (o.routed i)

  Taken-routed :
      (i : ℕ) (tx : Transaction) (qs : List (List Transaction))
      → Taken i sh.shard_ch tx qs
      → (j : ℕ) → All (λ (t : Transaction). shard_for sh.num_shards t.from ≡ j) (shard_at j qs)
  Taken-routed i tx qs s j = elim (ℕ_discrete j i) [
    | yes e ↦ rw e (Taken-head i tx qs s).1
    | no ne ↦ rw (s.others j ne) (o.routed j)
  ]

  Taken-bounded :
      (i : ℕ) (tx : Transaction) (qs : List (List Transaction))
      → Taken i sh.shard_ch tx qs
      → (j : ℕ) → length (shard_at j qs) ≤ 4096
  Taken-bounded i tx qs s j = elim (ℕ_discrete j i) [
    | yes e ↦
        rw e
          (omega (arith, subst (λ (q : List Transaction). length q ≤ 4096) s.there (o.bounded i)))
    | no ne ↦ rw (s.others j ne) (o.bounded j)
  ]

  Taken-ordered :
      (i : ℕ) (tx : Transaction) (qs : List (List Transaction))
      → Taken i sh.shard_ch tx qs
      → (a : Str)
      → Sublistᴰ
          (of_sender a (outs ++ (tx ∷ [])) ++ of_sender a (shard_at (shard_for sh.num_shards a) qs))
          (of_sender a ins)
  Taken-ordered i tx qs s a =
      let home = subst (λ j. Taken j sh.shard_ch tx qs) (sym (Taken-head i tx qs s).0) s in
      let moved = waiting-Taken sh.num_shards tx a sh.shard_ch qs home in
      rw
        (
          of_sender-append a outs (tx ∷ []),
          append_assoc (of_sender a outs) (of_sender a (tx ∷ []))
              (of_sender a (shard_at (shard_for sh.num_shards a) qs)),
          sym moved,
        )
        (o.ordered a)

  pub Taken-IsOrdered :
      (i : ℕ) (tx : Transaction) (qs : List (List Transaction))
      → Taken i sh.shard_ch tx qs
      → IsOrdered (with_channels sh qs) ins (outs ++ (tx ∷ []))
  unfolding with_channels
  Taken-IsOrdered i tx qs s = record {
    sized = s.lengths ∙ o.sized;
    routed = Taken-routed i tx qs s;
    bounded = Taken-bounded i tx qs s;
    ordered = Taken-ordered i tx qs s;
  }
