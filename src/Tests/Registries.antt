-- ===== src/Tests/Registries.antt =====
-- The theorem about the peer registry at a concrete run.
use mathlib.Core.List.Permᴰ
use hyperlux_chain.Prelude.{
  ℕ, zero, suc, ◌≡◌, refl, ap, true, false, Bool, Option, none, some, List, [], ◌∷◌, length,
}
use hyperlux_chain.Prelude.Int.{ℤ, pos, negsuc}
use hyperlux_chain.Prelude.Str.{Str, codes}
use hyperlux_chain.Prelude.Dict.{lookup}
use hyperlux_chain.Primitives.{Schedule}
use hyperlux_chain.Network.Gateway.{role_public, role_boot}
use hyperlux_chain.Network.Peers.{
  PeerInfo, PeerLibrary, Registry, load_peers, register_peer_remote, init_network,
}
use hyperlux_chain.Network.Peers.Restarted.{PeerLaws, started, registered, load_peers-Live}
use hyperlux_chain.Tests.Wallets.{put, pull, pull-put}

abbrev seen_codes : ℤ → Str → Str
seen_codes (pos n) s = 0 ∷ n ∷ s
seen_codes (negsuc n) s = 1 ∷ n ∷ s

abbrev boot_code : Bool → ℕ
boot_code true = 1
boot_code false = 0

abbrev write_peer : PeerInfo → Str
write_peer p = put p.id (put p.role (boot_code p.boot ∷ seen_codes p.seen p.addr))

abbrev read_boot : ℕ → Bool
read_boot zero = false
read_boot (suc n) = true

abbrev read_seen : ℕ → ℕ → ℤ
read_seen zero n = pos n
read_seen (suc k) n = negsuc n

abbrev finish_peer : Str → Str → Str → PeerInfo
finish_peer id role (b ∷ k ∷ n ∷ addr) = record {
  id = id;
  role = role;
  addr = addr;
  seen = read_seen k n;
  boot = read_boot b;
}
finish_peer id role _ = record { id = id; role = role; addr = []; seen = pos 0; boot = false }

abbrev read_peer : Str → PeerInfo
read_peer text =
    let first = pull text in let second = pull first.1 in finish_peer first.0 second.0 second.1

finish-codes :
    (p : PeerInfo) (b : Bool) (z : ℤ)
    → p.boot ≡ b
    → p.seen ≡ z
    → finish_peer p.id p.role (boot_code p.boot ∷ seen_codes p.seen p.addr) ≡ p
finish-codes p true (pos n) e f = rw (e, f) cc
finish-codes p false (pos n) e f = rw (e, f) cc
finish-codes p true (negsuc n) e f = rw (e, f) cc
finish-codes p false (negsuc n) e f = rw (e, f) cc

read-write_peer : (p : PeerInfo) → read_peer (write_peer p) ≡ p
read-write_peer p = rw (pull-put p.id _, pull-put p.role _) (finish-codes p p.boot p.seen refl refl)

abbrev write_all : List PeerInfo → Str
write_all [] = []
write_all (p ∷ ps) = put (write_peer p) (write_all ps)

abbrev read_all : ℕ → Str → List PeerInfo
read_all zero text = []
read_all (suc n) text = read_peer (pull text).0 ∷ read_all n (pull text).1

read-write_all : (ps : List PeerInfo) → read_all (length ps) (write_all ps) ≡ ps
read-write_all [] = refl
read-write_all (p ∷ ps) =
    rw (pull-put (write_peer p) (write_all ps), read-write_peer p, read-write_all ps)

abbrev read_counted : Str → Option (List PeerInfo)
read_counted [] = none
read_counted (n ∷ text) = some (read_all n text)

abbrev texts : PeerLibrary
texts = record {
  write_list = λ ps. length ps ∷ write_all ps;
  read_list = read_counted;
  read_peers = λ s. none;
  trim_space = λ s. s;
}

texts-laws : PeerLaws texts
texts-laws = record { read-write = λ ps. ap some (read-write_all ps) }

abbrev in_order : Schedule PeerInfo
in_order = record { arrange = λ ps. ps; arrange-perm = λ ps. Permᴰ.refl ps }

abbrev new_registry : Registry
new_registry = record { node_id = []; current_role = role_public; peers = []; files = [] }

abbrev two_peers : Registry
two_peers =
    register_peer_remote texts in_order (pos 9) (codes "node-2") role_boot (codes "10.0.0.2") true
      (init_network texts in_order (1 ∷ 2 ∷ []) (codes "Main") (pos 8) new_registry)

load_peers-Live_example :
    lookup
      (codes "node-2")
      (load_peers texts
        (record two_peers { node_id = codes "n"; current_role = role_public; peers = [] })).peers
    ≡ lookup (codes "node-2") two_peers.peers
load_peers-Live_example =
    load_peers-Live texts two_peers (codes "node-2") (codes "n") role_public texts-laws (
      registered in_order (pos 9) (codes "node-2") role_boot (codes "10.0.0.2") true
        (started in_order (1 ∷ 2 ∷ []) (codes "Main") (pos 8) new_registry refl))
