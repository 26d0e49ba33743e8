-- ===== src/Tests/Setup.antt =====
-- A toy signature scheme, an insertion sort and a small ledger.
use mathlib.Core.List.{Permᴰ}
use mathlib.Core.List.Permᴰ
use hyperlux_chain.Prelude.{
  ℕ, zero, suc, ◌≡◌, Bool, true, false, ◌%◌, ◌<◌, refl, inl, inr, List, [], ◌∷◌, ◌++◌, arith,
  Bool-cases, ◌==◌, if◌then◌else◌,
}
use hyperlux_chain.Prelude.Int.{ℤ, pos, ◌+ℤ◌, ◌-ℤ◌, ◌*ℤ◌}
use hyperlux_chain.Prelude.Str.{Str, codes, IsBytes, Str_discrete}
use hyperlux_chain.Prelude.Dict.{get, lookup, insert, total}
use hyperlux_chain.Primitives.{Primitives, SignatureLaws, SliceSort, IsSortedBy}
use hyperlux_chain.Codec.{show_ℤ, hex_encode, hex_decode}
use hyperlux_chain.Ledger.Types.{Transaction, State, empty_state}
use hyperlux_chain.Ledger.Batch.{
  nonce_less, process_tx_list_parallel, gather, accepted_of, run_worker, partition, senders, commit,
  commit_tx,
}
use hyperlux_chain.Ledger.Transaction.{
  verify_transaction, signing_data, get_next_nonce, calculate_fee, encode_transaction,
}
use hyperlux_chain.Ledger.Mempool.{contains, mempool_snapshot}
use hyperlux_chain.Prelude.Word64.{add64, sub64, mul64, quot64, wrap64}

abbrev first_byte : Str → ℕ
first_byte [] = 0
first_byte (b ∷ bs) = b % 256

abbrev pub repeat : ℕ → ℕ → Str
repeat zero b = []
repeat (suc n) b = b ∷ repeat n b

-- A signature is the first byte of the private key, and the public key is that byte 32 times.
abbrev pub toy : Primitives
toy = record {
  sha256 = λ m. m;
  ed25519_sign = λ key m. first_byte key ∷ [];
  ed25519_public = λ key. repeat 32 (first_byte key);
  ed25519_check = λ key m sig. first_byte key == first_byte sig;
  quote = λ s. b'"' ∷ (s ++ (b'"' ∷ []));
}

first_byte-lt : (s : Str) → first_byte s < 256
first_byte-lt [] = omega arith
first_byte-lt (b ∷ bs) = omega arith

repeat-IsBytes : (n b : ℕ) → b < 256 → IsBytes (repeat n b)
repeat-IsBytes zero b h = tt
repeat-IsBytes (suc n) b h = (h, repeat-IsBytes n b h)

pub toy_laws : SignatureLaws toy
toy_laws = record {
  sign-IsBytes = λ key m. (first_byte-lt key, tt);
  public-IsBytes = λ key. repeat-IsBytes 32 (first_byte key) (first_byte-lt key);
  public-length = λ key. refl;
  check-sign = λ key m. ground arith;
}

module _ {A : Type 0} (less : A → A → Bool) where
  unfoldable pub insert_by : A → List A → List A
  insert_by t [] = t ∷ []
  insert_by t (u ∷ us) = if less u t then u ∷ insert_by t us else t ∷ u ∷ us

  unfoldable pub sort_by : List A → List A
  unfolding insert_by
  sort_by [] = []
  sort_by (t ∷ ts) = insert_by t (sort_by ts)

  insert_by-perm : (t : A) (us : List A) → Permᴰ (t ∷ us) (insert_by t us)
  unfolding insert_by
  insert_by-perm t [] = Permᴰ.refl (t ∷ [])
  insert_by-perm t (u ∷ us) = elim (Bool-cases (less u t)) [
    | inl e ↦ rw e (Permᴰ.trans (Permᴰ.swap refl refl) (Permᴰ.cons refl (insert_by-perm t us)))
    | inr e ↦ rw e (Permᴰ.refl (t ∷ u ∷ us))
  ]

  pub sort_by-perm : (ts : List A) → Permᴰ ts (sort_by ts)
  unfolding sort_by
  sort_by-perm [] = Permᴰ.nil
  sort_by-perm (t ∷ ts) =
      Permᴰ.trans (Permᴰ.cons refl (sort_by-perm ts)) (insert_by-perm t (sort_by ts))

  module _ (asym : (t u : A) → less u t ≡ true → less t u ≡ false) where
    insert_by-IsSorted :
        (t : A) (us : List A) → IsSortedBy less us → IsSortedBy less (insert_by t us)
    unfolding insert_by
    insert_by-IsSorted t [] h = tt
    insert_by-IsSorted t (u ∷ []) h = elim (Bool-cases (less u t)) [
      | inl e ↦ rw e (asym t u e, tt)
      | inr e ↦ rw e (e, tt)
    ]
    insert_by-IsSorted t (u ∷ v ∷ us) h =
        let rest = insert_by-IsSorted t (v ∷ us) h.1 in
        elim (Bool-cases (less u t)) [
          | inl e ↦ elim (Bool-cases (less v t)) [
            | inl e' ↦ rw (e, e') (h.0, rw e' at rest)
            | inr e' ↦ rw (e, e') (asym t u e, rw e' at rest)
          ]
          | inr e ↦ rw e (e, h)
        ]

    pub sort_by-IsSorted : (ts : List A) → IsSortedBy less (sort_by ts)
    unfolding sort_by
    sort_by-IsSorted [] = tt
    sort_by-IsSorted (t ∷ ts) = insert_by-IsSorted t (sort_by ts) (sort_by-IsSorted ts)

    -- Insertion sort, for a `less` that holds one way at most.
    unfoldable pub insertion_sort : SliceSort less
    unfolding sort_by insert_by
    insertion_sort = record {
      sort = sort_by;
      sort-perm = sort_by-perm;
      sort-IsSorted = sort_by-IsSorted;
    }

pub nonce_less-asym : (t u : Transaction) → nonce_less u t ≡ true → nonce_less t u ≡ false
nonce_less-asym t u e = ground (arith, e)

unfoldable pub sorter : SliceSort nonce_less
unfolding insertion_sort
sorter = insertion_sort nonce_less nonce_less-asym

abbrev pub alice : Str
alice = codes "alice"

abbrev pub bob : Str
bob = codes "bob"

abbrev pub pay : Str → Str → ℤ → ℤ → Transaction
pay from to amount nonce = record {
  from = from;
  to = to;
  amount = amount;
  fee = pos 2;
  nonce = nonce;
  signature = codes "05";
  pub_key = hex_encode (repeat 32 5);
}

abbrev pub ledger : State
ledger = record empty_state {
  balances = (alice, pos 100) ∷ (bob, pos 10) ∷ [];
  nonce_table = (alice, pos 3) ∷ [];
}

-- Unfolding this name opens what a test of the ledger computes with.
unfoldable pub evaluation : Unit {0}
unfolding process_tx_list_parallel gather accepted_of run_worker partition senders sorter commit
    commit_tx verify_transaction signing_data get_next_nonce calculate_fee encode_transaction
    mempool_snapshot show_ℤ hex_decode hex_encode get lookup insert total Str_discrete add64 sub64
    mul64 quot64 wrap64 ◌+ℤ◌ ◌-ℤ◌ ◌*ℤ◌ contains
evaluation = tt
