-- ===== src/Network/Peers/Listed.antt =====
-- The peers of the registry as a list (network/network.go).
use mathlib.Core.List.{Permᴰ}
use mathlib.Core.List.Permᴰ
use hyperlux_chain.Prelude.{◌≡◌, refl, sym, subst, ◌∙◌, List, [], ◌∷◌, map, All}
use hyperlux_chain.Prelude.Str.{Str}
use hyperlux_chain.Prelude.Dict.{
  Dict, lookup, insert, merge, or_else-none, IsMap, insert-IsMap, IsMap-perm, insert-All,
  lookup-perm, lookup-merge,
}
use hyperlux_chain.Primitives.{Schedule}
use hyperlux_chain.Network.Peers.{PeerInfo, put_peers, values}

-- Every peer is kept under its own id.
abbrev pub IsKeyed : Dict PeerInfo → Type 0
IsKeyed = All (λ (e : Str × PeerInfo). e.1.id ≡ e.0)

entry : PeerInfo → Str × PeerInfo
entry p = (p.id, p)

entries-values : (m : Dict PeerInfo) → IsKeyed m → map entry (values m) ≡ m
unfolding entry
entries-values [] h = refl
entries-values ((k, p) ∷ m) h = cc (h.0, entries-values m h.1)

put_peers-merge : (ps : List PeerInfo) (m : Dict PeerInfo) → put_peers ps m ≡ merge (map entry ps) m
unfolding put_peers merge entry
put_peers-merge [] m = refl
put_peers-merge (p ∷ ps) m = put_peers-merge ps (insert p.id p m)

-- The peers that are listed in some order and put into an empty registry are the same.
pub put_peers-listed :
    (order : Schedule PeerInfo) (m : Dict PeerInfo) (k : Str)
    → IsKeyed m
    → IsMap m
    → lookup k (put_peers (order.arrange (values m)) []) ≡ lookup k m
unfolding lookup
put_peers-listed order m k keyed is_map =
    let listed = map entry (order.arrange (values m)) in
    let perm : Permᴰ m listed =
      subst (λ z. Permᴰ z listed) (entries-values m keyed)
        (Permᴰ.map entry (order.arrange-perm (values m))) in
    rw (put_peers-merge (order.arrange (values m)) []) (
      lookup-merge k listed [] (IsMap-perm perm is_map)
      ∙ or_else-none (lookup k listed)
      ∙ sym (lookup-perm k perm is_map))

pub put_peers-IsKeyed :
    (ps : List PeerInfo) (m : Dict PeerInfo) → IsKeyed m → IsKeyed (put_peers ps m)
unfolding put_peers
put_peers-IsKeyed [] m h = h
put_peers-IsKeyed (p ∷ ps) m h = put_peers-IsKeyed ps _ (insert-All _ p.id p m refl h)

pub put_peers-IsMap : (ps : List PeerInfo) (m : Dict PeerInfo) → IsMap m → IsMap (put_peers ps m)
unfolding put_peers
put_peers-IsMap [] m h = h
put_peers-IsMap (p ∷ ps) m h = put_peers-IsMap ps _ (insert-IsMap p.id p m h)
