-- ===== src/Network/Gateway.antt =====
-- The transaction ingress of network/network.go: the shards, the token buckets, GatewayAcceptTx.
-- float64 numbers, which may be negative here, are a parameter, and no result depends on them.
pub mod Channels
pub mod Ordered
pub mod Moves
pub mod Counts
pub mod Fifo
use Prim.Native.Nat.{bit_xor}
use hyperlux_chain.Prelude.{
  ℕ, zero, suc, ◌+◌, ◌*◌, ◌%◌, ◌^◌, ◌/◌, ◌≡◌, refl, Bool, true, false, not, Option, none, some,
  List, [], ◌∷◌, ◌++◌, length, ite, if◌then◌else◌, ltb, ◌==◌,
}
use hyperlux_chain.Prelude.Int.{ℤ, pos, leb_ℤ, ltb_ℤ}
use hyperlux_chain.Prelude.Word64.{sub64, mul64, quot64}
use hyperlux_chain.Prelude.Str.{Str, codes, Str_discrete}
use hyperlux_chain.Ledger.Types.{Transaction, ValidatorDef}

-- The operations of float64.
pub record Floats : Type 1 where
  pub Float : Type 0
  pub add : Float → Float → Float
  pub sub : Float → Float → Float
  pub mul : Float → Float → Float
  pub div : Float → Float → Float
  pub less : Float → Float → Bool
  pub of_int : ℤ → Float

-- `type Role string`
abbrev pub Role : Type 0
Role = Str

abbrev pub role_boot : Role
role_boot = codes "boot"

abbrev pub role_public : Role
role_public = codes "public"

-- `hash/fnv`: FNV-1a of 32 bits.
unfoldable pub fnv_from : ℕ → Str → ℕ
fnv_from h [] = h
fnv_from h (b ∷ s) = fnv_from (bit_xor h b * 16777619 % 2 ^ 32) s

unfoldable pub shard_for : ℕ → Str → ℕ
unfolding fnv_from
shard_for num_shards key = fnv_from 2166136261 key % num_shards

-- The channels, and what waits in each.
pub record Shards : Type 0 where
  pub num_shards : ℕ
  pub shard_ch : List (List Transaction)

unfoldable pub empty_channels : ℕ → List (List Transaction)
empty_channels zero = []
empty_channels (suc n) = [] ∷ empty_channels n

-- The first argument is the number of processors. `ingressOnce` lets it run while there are no
-- shards. It is one step here: the source sets `numShards` before `shardCh`, and InitNetwork calls it
-- before a transaction can arrive.
unfoldable pub start_ingress : ℕ → Shards → Shards
unfolding empty_channels
start_ingress ncpu sh =
    let n = (if ltb ncpu 2 then 2 else ncpu) * 2 in
    if sh.num_shards == 0 then record { num_shards = n; shard_ch = empty_channels n } else sh

-- A send to the channel at an index that does not wait: whether there was room. `none` is a panic.
unfoldable pub try_send :
    ℕ → Transaction → List (List Transaction) → Option (Bool × List (List Transaction))
try_send i tx [] = none
try_send zero tx (q ∷ qs) =
    if ltb (length q) 4096 then some (true, (q ++ (tx ∷ [])) ∷ qs) else some (false, q ∷ qs)
try_send (suc i) tx (q ∷ qs) = elim (try_send i tx qs) [
  | none ↦ none
  | some (b, qs') ↦ some (b, q ∷ qs')
]

-- What the goroutine of the i-th shard takes from its channel next.
unfoldable pub take_next :
    ℕ → List (List Transaction) → Option (Transaction × List (List Transaction))
take_next i [] = none
take_next zero ([] ∷ qs) = none
take_next zero ((tx ∷ q) ∷ qs) = some (tx, q ∷ qs)
take_next (suc i) (q ∷ qs) = elim (take_next i qs) [
  | none ↦ none
  | some (tx, qs') ↦ some (tx, q ∷ qs')
]

-- `atomic.AddUint64(…, 1)`
abbrev pub next_count : ℕ → ℕ
next_count n = (n + 1) % 2 ^ 64

unfoldable pub is_validator : Str → List ValidatorDef → Option ℤ
is_validator addr [] = none
is_validator addr (v ∷ vs) =
    let rest = is_validator addr vs in ite (Str_discrete v.address addr) (some v.stake) rest

pub data Lane : Type 0 where
  lane_fast lane_normal lane_slow : Lane

abbrev pub is_public : Role → Bool
is_public r = ite (Str_discrete r role_public) true false

module _ (o : Floats) where
  pub record TokenBucket : Type 0 where
    pub tokens : o.Float
    pub last_ref : ℤ
    pub rate : o.Float
    pub burst : o.Float

  unfoldable pub new_bucket : ℤ → ℤ → ℤ → TokenBucket
  new_bucket now rate burst = record {
    tokens = o.of_int burst;
    last_ref = now;
    rate = o.of_int rate;
    burst = o.of_int burst;
  }

  -- `Duration.Seconds`
  unfoldable pub seconds : ℤ → o.Float
  seconds d =
      let sec = quot64 d (pos 1000000000) in
      o.add (o.of_int sec)
        (o.div (o.of_int (sub64 d (mul64 sec (pos 1000000000)))) (o.of_int (pos 1000000000)))

  -- `allow`, at a clock reading. No product is fused with a sum.
  unfoldable pub allow : ℤ → o.Float → TokenBucket → Bool × TokenBucket
  unfolding seconds
  allow now weight b =
      let elapsed = seconds (sub64 now b.last_ref) in
      let filled = o.add b.tokens (o.mul (o.mul elapsed b.rate) weight) in
      let max = o.mul b.burst weight in
      let tokens = if o.less max filled then max else filled in
      if o.less tokens (o.of_int (pos 1))
      then (false, record b { tokens = tokens; last_ref = now })
      else (true, record b { tokens = o.sub tokens (o.of_int (pos 1)); last_ref = now })

  -- The variables of the package that the gateway uses.
  pub record Gateway : Type 0 where
    pub current_role : Role
    pub bucket_fast : TokenBucket
    pub bucket_normal : TokenBucket
    pub bucket_slow : TokenBucket
    pub shards : Shards
    pub ingress_accepted : ℕ
    pub ingress_dropped : ℕ

  -- What the package's variables are before InitNetwork runs.
  unfoldable pub fresh_gateway : ℤ → Role → Gateway
  unfolding new_bucket
  fresh_gateway now role = record {
    current_role = role;
    bucket_fast = new_bucket now (pos 4000) (pos 8000);
    bucket_normal = new_bucket now (pos 1800) (pos 3600);
    bucket_slow = new_bucket now (pos 600) (pos 1200);
    shards = record { num_shards = 0; shard_ch = [] };
    ingress_accepted = 0;
    ingress_dropped = 0;
  }

  unfoldable pub stake_weight : ℤ → o.Float
  stake_weight stake =
      let w = o.add (o.of_int (pos 1)) (o.div (o.of_int stake) (o.of_int (pos 10000))) in
      if o.less (o.of_int (pos 4)) w then o.of_int (pos 4) else w

  unfoldable pub lane_for : List ValidatorDef → Transaction → Lane × o.Float
  unfolding is_validator stake_weight
  lane_for validators tx = elim (is_validator tx.from validators) [
    | some stake ↦ (lane_fast, stake_weight stake)
    | none ↦
        if leb_ℤ (pos 5000) tx.fee
        then (lane_fast, o.of_int (pos 1))
        else if leb_ℤ (pos 1200) tx.fee
        then (lane_normal, o.of_int (pos 1))
        else (lane_slow, o.of_int (pos 1))
  ]

  -- `b.allow(w)` on the bucket of a lane.
  unfoldable pub allow_lane : ℤ → Lane × o.Float → Gateway → Bool × Gateway
  unfolding allow
  allow_lane now (lane_fast, w) g =
      let (fine, b) = allow now w g.bucket_fast in (fine, record g { bucket_fast = b })
  allow_lane now (lane_normal, w) g =
      let (fine, b) = allow now w g.bucket_normal in (fine, record g { bucket_normal = b })
  allow_lane now (lane_slow, w) g =
      let (fine, b) = allow now w g.bucket_slow in (fine, record g { bucket_slow = b })

  -- `none` is a panic.
  unfoldable pub enqueue_shard : ℕ → Transaction → Gateway → Option Gateway
  unfolding start_ingress try_send shard_for
  enqueue_shard ncpu tx g =
      let sh = start_ingress ncpu g.shards in
      elim (try_send (shard_for sh.num_shards tx.from) tx sh.shard_ch) [
        | none ↦ none
        | some (room, qs) ↦ some (record g {
          shards = record sh { shard_ch = qs };
          ingress_dropped = if room then g.ingress_dropped else next_count g.ingress_dropped;
        })
      ]

  abbrev pub count_accepted : Option Gateway → Option (Bool × Gateway)
  count_accepted none = none
  count_accepted (some g) =
      some (true, record g { ingress_accepted = next_count g.ingress_accepted })

  -- Whether there was no error, and the new state; `none` is a panic.
  unfoldable pub gateway_accept_tx :
      ℕ → ℤ → List ValidatorDef → Transaction → Gateway → Option (Bool × Gateway)
  unfolding enqueue_shard lane_for allow_lane
  gateway_accept_tx ncpu now validators tx g =
      let (fine, g') = allow_lane now (lane_for validators tx) g in
      if not (is_public g.current_role)
      then count_accepted (enqueue_shard ncpu tx g)
      else if not fine
      then some (false, record g' { ingress_dropped = next_count g'.ingress_dropped })
      else count_accepted (enqueue_shard ncpu tx g')
