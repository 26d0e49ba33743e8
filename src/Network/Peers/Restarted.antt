-- ===== src/Network/Peers/Restarted.antt =====
-- What a restart finds in the file of the peer registry (network/network.go, network/peer.go).

use hyperlux_chain.Prelude.{
  ℕ, ◌+◌, ◌≡◌, ◌≢◌, refl, subst, ◌∙◌, Bool, Option, none, some, List, [], ◌∷◌, inl, inr,
  Option-cases,
}
use hyperlux_chain.Prelude.Int.{ℤ}
use hyperlux_chain.Prelude.Str.{Str}
use hyperlux_chain.Prelude.Dict.{
  lookup, IsMap, insert-IsMap, insert-All, lookup-All, lookup-insert_self, lookup-insert_ne,
}
use hyperlux_chain.Primitives.{Schedule}
use hyperlux_chain.Network.Gateway.{Role}
use hyperlux_chain.Network.Peers.Listed.{
  IsKeyed, put_peers-listed, put_peers-IsKeyed, put_peers-IsMap,
}
use hyperlux_chain.Network.Peers.{
  PeerInfo, Peer, PeerLibrary, Registry, peers_file, put_peers, values, load_peers, save_peers,
  register_peer_remote, register_self, connect_peer, export_peers, import_each, import_peers,
  touch_self_addr, init_network, list_peers, role_of,
}

-- A list that is written is read as it was, its strings taken to be valid UTF-8.
pub record PeerLaws (lib : PeerLibrary) : Type 0 where
  pub read-write : (ps : List PeerInfo) → lib.read_list (lib.write_list ps) ≡ some ps

module _ (lib : PeerLibrary) where
  -- The file lists the peers that are in memory.
  record Kept (r : Registry) : Type 0 where
    keyed : IsKeyed r.peers
    is_map : IsMap r.peers
    order : Schedule PeerInfo
    saved : lookup peers_file r.files ≡ some (lib.write_list (order.arrange (values r.peers)))

  save_peers-Kept :
      (order : Schedule PeerInfo) (r : Registry)
      → IsKeyed r.peers
      → IsMap r.peers
      → Kept (save_peers lib order r)
  unfolding save_peers list_peers
  save_peers-Kept order r keyed is_map = record {
    keyed = keyed;
    is_map = is_map;
    order = order;
    saved = lookup-insert_self peers_file _ r.files;
  }

  register-Kept :
      (order : Schedule PeerInfo) (now : ℤ) (id : Str) (role : Role) (addr : Str) (boot : Bool)
      (r : Registry)
      → IsKeyed r.peers
      → IsMap r.peers
      → Kept (register_peer_remote lib order now id role addr boot r)
  unfolding register_peer_remote
  register-Kept order now id role addr boot r keyed is_map =
      save_peers-Kept order _ (insert-All _ id _ r.peers refl keyed)
        (insert-IsMap id _ r.peers is_map)

  connect-Kept :
      (order : Schedule PeerInfo) (now : ℤ) (p : Peer) (r : Registry)
      → Kept r
      → Kept (connect_peer lib order now p r)
  unfolding connect_peer
  connect-Kept order now p r k = register-Kept order now p.id p.role p.addr _ r k.keyed k.is_map

  import_each-Kept :
      (order : ℕ → Schedule PeerInfo) (now : ℕ → ℤ) (n : ℕ) (ps : List Peer) (r : Registry)
      → Kept r
      → Kept (import_each lib order now n ps r)
  unfolding import_each
  import_each-Kept order now n [] r k = k
  import_each-Kept order now n (p ∷ ps) r k =
      import_each-Kept order now (n + 1) ps _ (connect-Kept (order n) (now n) p r k)

  abbrev Imported : Option Registry → Type 0
  Imported none = Unit
  Imported (some r) = Kept r

  read-Imported :
      (order : ℕ → Schedule PeerInfo) (now : ℕ → ℤ) (r : Registry) (o : Option (List Peer))
      → Kept r
      → Imported (elim o [ none ↦ none | some ps ↦ some (import_each lib order now 0 ps r) ])
  read-Imported order now r none k = tt
  read-Imported order now r (some ps) k = import_each-Kept order now 0 ps r k

  import_peers-Imported :
      (order : ℕ → Schedule PeerInfo) (now : ℕ → ℤ) (path : Str) (r : Registry)
      → Kept r
      → Imported (import_peers lib order now path r)
  unfolding import_peers
  import_peers-Imported order now path r k = elim (Option-cases (lookup path r.files)) [
    | inl e ↦ rw (e, import_peers) tt
    | inr (text, e) ↦ rw (e, import_peers) (read-Imported order now r (lib.read_peers text) k)
  ]

  touch-Kept :
      (order : Schedule PeerInfo) (now : ℤ) (addr : Str) (r : Registry)
      → Kept r
      → Kept (touch_self_addr lib order now addr r)
  unfolding touch_self_addr
  touch-Kept order now addr r k = elim (Option-cases (lookup r.node_id r.peers)) [
    | inl e ↦ rw (e, touch_self_addr) (save_peers-Kept order r k.keyed k.is_map)
    | inr (me, e) ↦
        rw (e, touch_self_addr)
          (save_peers-Kept order _
            (insert-All _ r.node_id _ r.peers
              (lookup-All (λ (q : Str × PeerInfo). q.1.id ≡ q.0) r.node_id me r.peers e k.keyed)
              k.keyed)
            (insert-IsMap r.node_id _ r.peers k.is_map))
  ]

  export-Kept :
      (order : Schedule PeerInfo) (path : Str) (r : Registry)
      → path ≢ peers_file
      → Kept r
      → Kept (export_peers lib order path r)
  unfolding export_peers
  export-Kept order path r ne k = record {
    keyed = k.keyed;
    is_map = k.is_map;
    order = k.order;
    saved = lookup-insert_ne path peers_file _ r.files ne ∙ k.saved;
  }

  load_peers-IsKeyed :
      (r : Registry)
      → IsKeyed r.peers
      → IsMap r.peers
      → IsKeyed (load_peers lib r).peers × IsMap (load_peers lib r).peers
  unfolding load_peers
  load_peers-IsKeyed r keyed is_map = elim (Option-cases (lookup peers_file r.files)) [
    | inl e ↦ rw (e, load_peers) (keyed, is_map)
    | inr (text, e) ↦
        rw (e, load_peers)
          (elim (Option-cases (lib.read_list text)) [
            | inl f ↦ rw f (keyed, is_map)
            | inr (ps, f) ↦
                rw f (put_peers-IsKeyed ps r.peers keyed, put_peers-IsMap ps r.peers is_map)
          ])
  ]

  init_network-Kept :
      (order : Schedule PeerInfo) (rnd env : Str) (now : ℤ) (r : Registry)
      → r.peers ≡ []
      → Kept (init_network lib order rnd env now r)
  unfolding init_network register_self
  init_network-Kept order rnd env now r e =
      let loaded = load_peers-IsKeyed _ (rw e tt) (rw e tt) in
      register-Kept order now _ (role_of env) [] _ _ loaded.0 loaded.1

  -- The states of the registry: a process starts with no peers, over any files, and then registers,
  -- connects, imports and exports; an export does not overwrite the registry's own file.
  pub data Live : Registry → Type 0 where
    started :
        (order : Schedule PeerInfo) (rnd env : Str) (now : ℤ) (r : Registry)
        → r.peers ≡ []
        → Live (init_network lib order rnd env now r)
    registered :
        {r : Registry} (order : Schedule PeerInfo) (now : ℤ) (id : Str) (role : Role) (addr : Str)
        (boot : Bool)
        → Live r
        → Live (register_peer_remote lib order now id role addr boot r)
    connected :
        {r : Registry} (order : Schedule PeerInfo) (now : ℤ) (p : Peer)
        → Live r
        → Live (connect_peer lib order now p r)
    imported :
        {r r' : Registry} (order : ℕ → Schedule PeerInfo) (now : ℕ → ℤ) (path : Str)
        → Live r
        → import_peers lib order now path r ≡ some r'
        → Live r'
    touched :
        {r : Registry} (order : Schedule PeerInfo) (now : ℤ) (addr : Str)
        → Live r
        → Live (touch_self_addr lib order now addr r)
    exported :
        {r : Registry} (order : Schedule PeerInfo) (path : Str)
        → path ≢ peers_file
        → Live r
        → Live (export_peers lib order path r)

  Live-Kept : {r : Registry} → Live r → Kept r
  Live-Kept (started order rnd env now r e) = init_network-Kept order rnd env now r e
  Live-Kept (registered {r} order now id role addr boot l) =
      let k = Live-Kept l in register-Kept order now id role addr boot r k.keyed k.is_map
  Live-Kept (connected {r} order now p l) = connect-Kept order now p r (Live-Kept l)
  Live-Kept (imported {r} order now path l e) =
      subst Imported e (import_peers-Imported order now path r (Live-Kept l))
  Live-Kept (touched {r} order now addr l) = touch-Kept order now addr r (Live-Kept l)
  Live-Kept (exported {r} order path ne l) = export-Kept order path r ne (Live-Kept l)

  loaded-Kept :
      (r : Registry) (k : Kept r) (node_id : Str) (role : Role)
      → PeerLaws lib
      → (load_peers lib (record r { node_id = node_id; current_role = role; peers = [] })).peers
        ≡ put_peers (k.order.arrange (values r.peers)) []
  unfolding load_peers
  loaded-Kept r k node_id role laws =
      rw (k.saved, load_peers, laws.read-write (k.order.arrange (values r.peers)))

  -- At any time, what a process that starts over the same files loads is what the registry holds:
  -- under every id the same peer, or none. It does not depend on the orders in which Go runs
  -- through the map when it writes the file, nor on the new process's own id and role.
  pub load_peers-Live :
      (r : Registry) (id node_id : Str) (role : Role)
      → PeerLaws lib
      → Live r
      → lookup id
          (load_peers lib (record r { node_id = node_id; current_role = role; peers = [] })).peers
        ≡ lookup id r.peers
  load_peers-Live r id node_id role laws l =
      let k = Live-Kept l in
      rw (loaded-Kept r k node_id role laws) (put_peers-listed k.order r.peers id k.keyed k.is_map)
