-- ===== src/Tests/Gateways.antt =====
-- The theorem about the gateway at a concrete run.
use hyperlux_chain.Prelude.{
  ℕ, ◌+◌, ◌-◌, ◌*◌, ◌/◌, ◌≡◌, ◌≢◌, refl, Bool, Option, none, some, List, [], ◌∷◌, ltb,
}
use hyperlux_chain.Prelude.Int.{ℤ, pos, pos_part}
use hyperlux_chain.Prelude.Str.{codes}
use hyperlux_chain.Ledger.Types.{Transaction, ValidatorDef}
use hyperlux_chain.Network.Gateway.{
  Floats, Gateway, role_public, shard_for, fnv_from, fresh_gateway, gateway_accept_tx, take_next,
}
use hyperlux_chain.Network.Gateway.Ordered.{IsOrdered}
use hyperlux_chain.Network.Gateway.Moves.{with_channels}
use hyperlux_chain.Network.Gateway.Fifo.{Reach, fresh, admitted, handed_on, gateway_fifo}
use hyperlux_chain.Tests.Setup.{alice, bob, pay, evaluation}

-- The value of FNV-1a on "a" that its authors give.
fnv_example : fnv_from 2166136261 (codes "a") ≡ 0xe40c292c
unfolding fnv_from
fnv_example = refl

-- Whole numbers in place of floats.
abbrev whole : Floats
whole = record {
  Float = ℕ;
  add = ◌+◌;
  sub = ◌-◌;
  mul = ◌*◌;
  div = ◌/◌;
  less = ltb;
  of_int = pos_part;
}

abbrev first_tx : Transaction
first_tx = pay alice bob (pos 20) (pos 4)

abbrev second_tx : Transaction
second_tx = pay bob alice (pos 2) (pos 1)

abbrev after : Option (Bool × Gateway whole) → Gateway whole
after none = fresh_gateway whole (pos 0) role_public
after (some (fine, g)) = g

abbrev step_one : Gateway whole
step_one =
    after (gateway_accept_tx whole 1 (pos 5) [] first_tx (fresh_gateway whole (pos 0) role_public))

abbrev step_two : Gateway whole
step_two = after (gateway_accept_tx whole 1 (pos 6) [] second_tx step_one)

abbrev home : ℕ
home = shard_for 4 alice

abbrev rest : Option (Transaction × List (List Transaction)) → List (List Transaction)
rest none = []
rest (some (tx, qs)) = qs

abbrev left : List (List Transaction)
left = rest (take_next home step_two.shards.shard_ch)

reached :
    Reach whole 1
      (record step_two { shards = with_channels step_two.shards left })
      (first_tx ∷ second_tx ∷ [])
      (first_tx ∷ [])
unfolding evaluation gateway_accept_tx take_next fresh_gateway
reached =
    handed_on home first_tx
      (admitted (pos 6) [] second_tx (admitted (pos 5) [] first_tx (fresh (pos 0) role_public) refl)
        refl)
      refl

gateway_fifo_example :
    let g = record step_two { shards = with_channels step_two.shards left } in
    IsOrdered g.shards (first_tx ∷ second_tx ∷ []) (first_tx ∷ [])
    × (g.ingress_accepted ≡ 2)
    × ((now : ℤ) (vs : List ValidatorDef) (tx : Transaction)
        → gateway_accept_tx whole 1 now vs tx g ≢ none)
gateway_fifo_example =
    gateway_fifo whole 1 (record step_two { shards = with_channels step_two.shards left })
      (first_tx ∷ second_tx ∷ []) (first_tx ∷ []) reached
