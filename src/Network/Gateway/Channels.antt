-- ===== src/Network/Gateway/Channels.antt =====
-- What a send to a shard's channel and a receive from it leave (network/network.go).
use hyperlux_chain.Prelude.{
  ℕ, zero, suc, ◌≤◌, ◌<◌, ◌≡◌, ◌≢◌, refl, ap, inl, inr, Bool, Option, none, some, List, [], ◌∷◌,
  ◌++◌, length, length-append, if◌then◌else◌, ltb, arith, Bool-cases,
}
use hyperlux_chain.Ledger.Types.{Transaction}
use hyperlux_chain.Network.Gateway.{empty_channels, try_send, take_next}

-- What waits in the i-th channel.
unfoldable pub shard_at : ℕ → List (List Transaction) → List Transaction
shard_at i [] = []
shard_at zero (q ∷ qs) = q
shard_at (suc i) (q ∷ qs) = shard_at i qs

pub shard_at-empty_channels : (i n : ℕ) → shard_at i (empty_channels n) ≡ []
unfolding shard_at empty_channels
shard_at-empty_channels i zero = refl
shard_at-empty_channels zero (suc n) = refl
shard_at-empty_channels (suc i) (suc n) = shard_at-empty_channels i n

pub length-empty_channels : (n : ℕ) → length (empty_channels n) ≡ n
unfolding empty_channels
length-empty_channels zero = refl
length-empty_channels (suc n) = ap suc (length-empty_channels n)

-- What a send to the i-th channel leaves.
pub record Sent (i : ℕ) (tx : Transaction) (qs : List (List Transaction)) (room : Bool)
    (qs' : List (List Transaction)) : Type 0 where
  pub lengths : length qs' ≡ length qs
  pub others : (j : ℕ) → j ≢ i → shard_at j qs' ≡ shard_at j qs
  pub there : shard_at i qs' ≡ (if room then shard_at i qs ++ (tx ∷ []) else shard_at i qs)
  pub small : length (shard_at i qs) ≤ 4096 → length (shard_at i qs') ≤ 4096

abbrev pub Sends :
    ℕ → Transaction → List (List Transaction) → Option (Bool × List (List Transaction)) → Type 0
Sends i tx qs none = ⊥
Sends i tx qs (some (room, qs')) = Sent i tx qs room qs'

others_first :
    (q' q : List Transaction) (qs : List (List Transaction)) (j : ℕ)
    → j ≢ 0
    → shard_at j (q' ∷ qs) ≡ shard_at j (q ∷ qs)
unfolding shard_at
others_first q' q qs zero ne = absurd (ne refl)
others_first q' q qs (suc j) ne = refl

first-Sends :
    (tx : Transaction) (q : List Transaction) (qs : List (List Transaction))
    → Sends 0 tx (q ∷ qs) (try_send 0 tx (q ∷ qs))
unfolding try_send shard_at
first-Sends tx q qs = elim (Bool-cases (ltb (length q) 4096)) [
  | inl e ↦ rw e (record {
    lengths = refl;
    others = others_first (q ++ (tx ∷ [])) q qs;
    there = refl;
    small = λ le. grind (arith, e, length-append q (tx ∷ []));
  })
  | inr e ↦ rw e (record { lengths = refl; others = λ j ne. refl; there = refl; small = λ le. le })
]

others_later :
    (i : ℕ) (tx : Transaction) (q : List Transaction) (qs : List (List Transaction)) (room : Bool)
    (qs' : List (List Transaction))
    → Sent i tx qs room qs'
    → (j : ℕ) → j ≢ suc i
    → shard_at j (q ∷ qs') ≡ shard_at j (q ∷ qs)
unfolding shard_at
others_later i tx q qs room qs' s zero ne = refl
others_later i tx q qs room qs' s (suc j) ne = s.others j (λ e. ne (ap suc e))

later-Sends :
    (i : ℕ) (tx : Transaction) (q : List Transaction) (qs : List (List Transaction))
    (o : Option (Bool × List (List Transaction)))
    → try_send i tx qs ≡ o
    → Sends i tx qs o
    → Sends (suc i) tx (q ∷ qs) (try_send (suc i) tx (q ∷ qs))
unfolding try_send shard_at
later-Sends i tx q qs none e s = absurd s
later-Sends i tx q qs (some (room, qs')) e s = rw e (record {
  lengths = ap suc s.lengths;
  others = others_later i tx q qs room qs' s;
  there = s.there;
  small = s.small;
})

pub try_send-Sends :
    (i : ℕ) (tx : Transaction) (qs : List (List Transaction))
    → i < length qs
    → Sends i tx qs (try_send i tx qs)
unfolding try_send
try_send-Sends i tx [] lt = omega (arith, lt)
try_send-Sends zero tx (q ∷ qs) lt = first-Sends tx q qs
try_send-Sends (suc i) tx (q ∷ qs) lt =
    later-Sends i tx q qs (try_send i tx qs) refl (try_send-Sends i tx qs (omega (arith, lt)))

-- What a receive from the i-th channel gives and leaves.
pub record Taken (i : ℕ) (qs : List (List Transaction)) (tx : Transaction)
    (qs' : List (List Transaction)) : Type 0 where
  pub lengths : length qs' ≡ length qs
  pub others : (j : ℕ) → j ≢ i → shard_at j qs' ≡ shard_at j qs
  pub there : shard_at i qs ≡ tx ∷ shard_at i qs'

abbrev pub Takes :
    ℕ → List (List Transaction) → Option (Transaction × List (List Transaction)) → Type 0
Takes i qs none = Unit
Takes i qs (some (tx, qs')) = Taken i qs tx qs'

take_others :
    (i : ℕ) (q : List Transaction) (qs : List (List Transaction)) (tx : Transaction)
    (qs' : List (List Transaction))
    → Taken i qs tx qs'
    → (j : ℕ) → j ≢ suc i
    → shard_at j (q ∷ qs') ≡ shard_at j (q ∷ qs)
unfolding shard_at
take_others i q qs tx qs' s zero ne = refl
take_others i q qs tx qs' s (suc j) ne = s.others j (λ e. ne (ap suc e))

later-Takes :
    (i : ℕ) (q : List Transaction) (qs : List (List Transaction))
    (o : Option (Transaction × List (List Transaction)))
    → take_next i qs ≡ o
    → Takes i qs o
    → Takes (suc i) (q ∷ qs) (take_next (suc i) (q ∷ qs))
unfolding take_next shard_at
later-Takes i q qs none e s = rw e tt
later-Takes i q qs (some (tx, qs')) e s =
    rw e
      (record { lengths = ap suc s.lengths; others = take_others i q qs tx qs' s; there = s.there })

pub take_next-Takes : (i : ℕ) (qs : List (List Transaction)) → Takes i qs (take_next i qs)
unfolding take_next shard_at
take_next-Takes i [] = tt
take_next-Takes zero ([] ∷ qs) = tt
take_next-Takes zero ((tx ∷ q) ∷ qs) = record {
  lengths = refl;
  others = others_first q (tx ∷ q) qs;
  there = refl;
}
take_next-Takes (suc i) (q ∷ qs) = later-Takes i q qs (take_next i qs) refl (take_next-Takes i qs)
