-- ===== src/Cli/Handlers/Reports/Window.antt =====
-- What the command metrics of cli/cli.go sums up.
use mathlib.Core.Option
use mathlib.Core.List.{append_assoc}
use hyperlux_chain.Prelude.{
  ℕ, suc, ◌+◌, ◌-◌, ◌<◌, ◌≡◌, ◌⊎◌, inl, inr, refl, sym, ap, subst, ◌∙◌, some, List, [], ◌∷◌, ◌++◌,
  length, length-append, get_elem?, if◌then◌else◌, arith,
}
use hyperlux_chain.Prelude.Int.{ℤ, pos, ltb_ℤ}
use hyperlux_chain.Prelude.Word64.{add64, sub64}
use hyperlux_chain.Ledger.Types.{Block}
use hyperlux_chain.Cli.Handlers.Reports.{
  Metrics, add_window, window_sums, at_least_one, metrics_of, window_of, chain_metrics,
}

abbrev pub tx_total : List Block → ℕ
tx_total [] = 0
tx_total (b ∷ bs) = length b.transactions + tx_total bs

-- The sum of the positive gaps between a block and the next one.
abbrev pub gap_total : ℤ → Block → List Block → ℤ
gap_total dt p [] = dt
gap_total dt p (b ∷ bs) =
    let d = sub64 b.timestamp p.timestamp in
    gap_total (if ltb_ℤ (pos 0) d then add64 dt d else dt) b bs

abbrev pub last_of : Block → List Block → Block
last_of p [] = p
last_of p (b ∷ bs) = last_of b bs

get_elem-append :
    (front rest : List Block) (b : Block) → get_elem? (front ++ (b ∷ rest)) (length front) ≡ some b
get_elem-append [] rest b = refl
get_elem-append (a ∷ front) rest b = get_elem-append front rest b

get_elem_at :
    (front rest : List Block) (b : Block) (i : ℕ)
    → i ≡ length front
    → get_elem? (front ++ (b ∷ rest)) i ≡ some b
get_elem_at front rest b i e = rw e (get_elem-append front rest b)

get_elem_next :
    (front rest : List Block) (p b : Block) (i : ℕ)
    → i ≡ suc (length front)
    → get_elem? (front ++ (p ∷ b ∷ rest)) i ≡ some b
get_elem_next [] rest p b i e = rw e refl
get_elem_next (a ∷ front) rest p b i e =
    rw e (get_elem_next front rest p b (suc (length front)) refl)

-- The rounds from the second block of the window on.
window_sums-split :
    (recent front : List Block) (p : Block) (i tx : ℕ) (dt : ℤ)
    → i ≡ length front
    → window_sums (length recent) (suc i) (front ++ (p ∷ recent)) (tx, dt)
      ≡ (tx + tx_total recent, gap_total dt p recent)
unfolding window_sums add_window
window_sums-split [] front p i tx dt e = ap (λ n. (n, dt)) (omega arith)
window_sums-split (b ∷ bs) front p i tx dt e =
    let d = sub64 b.timestamp p.timestamp in
    let tx' = tx + length b.transactions in
    let dt' = if ltb_ℤ (pos 0) d then add64 dt d else dt in
    let rest =
      window_sums-split bs (front ++ (p ∷ [])) b (suc i) tx' dt'
        (omega (arith, e, length-append front (p ∷ []))) in
    rw
      (
        window_sums,
        get_elem_next front bs p b (suc i) (ap suc e),
        get_elem_at front (b ∷ bs) p (suc i - 1) (omega (arith, e)),
      )
      (subst
          (λ bs'.
            window_sums (length bs) (suc (suc i)) bs' (tx', dt')
            ≡ (tx' + tx_total bs, gap_total dt' b bs))
          (append_assoc front (p ∷ []) (b ∷ bs)) rest
        ∙ ap (λ n. (n, gap_total dt' b bs)) (omega arith))

get_elem-last_of :
    (recent front : List Block) (p : Block)
    → get_elem? (front ++ (p ∷ recent)) (length front + length recent) ≡ some (last_of p recent)
get_elem-last_of [] front p = get_elem_at front [] p _ (omega arith)
get_elem-last_of (b ∷ bs) front p =
    subst (λ n. get_elem? (front ++ (p ∷ b ∷ bs)) n ≡ some (last_of b bs))
      (omega (arith, length-append front (p ∷ [])))
      (subst (λ bs'. get_elem? bs' (length (front ++ (p ∷ [])) + length bs) ≡ some (last_of b bs))
        (append_assoc front (p ∷ []) (b ∷ bs)) (get_elem-last_of bs (front ++ (p ∷ [])) b))

-- The window reaches back over twenty blocks, or to the first block.
abbrev pub IsWindow : ℕ → ℕ → Type 0
IsWindow before r = (r ≡ 20) ⊎ ((before ≡ 0) × (r < 20))

window_size : (f r n : ℕ) → IsWindow f r → n ≡ f + r → window_of n ≡ r
window_size f r n (inl e) h = ground (arith, e, h)
window_size f r n (inr (e, l)) h = ground (arith, e, l, h)

-- What the command reports about a chain that ends in the block `p` and the blocks `recent`, where
-- those are the last twenty or `p` is the first block: its height and last block, the transactions
-- of `recent`, and the sum of the positive gaps between the timestamps from `p` on, at least one.
pub chain_metrics-window :
    (front recent : List Block) (p : Block)
    → IsWindow (length front) (length recent)
    → (m : Metrics) × (chain_metrics (front ++ (p ∷ recent)) ≡ some m)
      × (m.height ≡ length front + suc (length recent))
      × (m.last_index ≡ (last_of p recent).index)
      × (m.window ≡ length recent)
      × (m.sum_tx ≡ tx_total recent)
      × (m.sum_dt ≡ at_least_one (gap_total (pos 0) p recent))
unfolding chain_metrics metrics_of
chain_metrics-window front recent p h =
    let chain = front ++ (p ∷ recent) in
    let high : length chain ≡ length front + suc (length recent) =
      length-append front (p ∷ recent) in
    let top : length chain - 1 ≡ length front + length recent = omega (arith, high) in
    let size = window_size (length front) (length recent) (length chain - 1) h top in
    let here =
      subst (λ n. get_elem? chain n ≡ some (last_of p recent)) (sym top)
        (get_elem-last_of recent front p) in
    let sums : window_sums (window_of (length chain - 1))
          (suc (length chain - 1 - window_of (length chain - 1))) chain (0, pos 0)
        ≡ (0 + tx_total recent, gap_total (pos 0) p recent) =
      rw size (
        window_sums-split recent front p (length chain - 1 - length recent) 0 (pos 0)
          (omega (arith, top))) in
    (
      metrics_of (length chain) (window_of (length chain - 1)) chain (last_of p recent),
      ap (Option.map (metrics_of (length chain) (window_of (length chain - 1)) chain)) here,
      high,
      refl,
      size,
      ap (λ s. s.0) sums ∙ omega arith,
      ap (λ s. at_least_one s.1) sums,
    )
