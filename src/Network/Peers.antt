-- ===== src/Network/Peers.antt =====
-- The peer registry of network/network.go and network/peer.go, its file, and InitNetwork up to the
-- start of the transport. The JSON text and the trimming of spaces are parameters; a write is taken
-- not to fail. The order in which Go runs through a map is an argument.
pub mod Listed
pub mod Restarted
use hyperlux_chain.Prelude.{
  ℕ, ◌+◌, ◌≡◌, Bool, true, false, Option, none, some, List, [], ◌∷◌, ◌++◌, map, is_empty, ite,
  if◌then◌else◌, ◌==◌,
}
use hyperlux_chain.Prelude.Int.{ℤ}
use hyperlux_chain.Prelude.Str.{Str, codes, Str_discrete, to_lower, equals}
use hyperlux_chain.Prelude.Dict.{Dict, lookup, insert}
use hyperlux_chain.Primitives.{Schedule}
use hyperlux_chain.Codec.{hex_encode}
use hyperlux_chain.Wallet.{Files}
use hyperlux_chain.Network.Gateway.{Role, role_boot, role_public}

pub record PeerInfo : Type 0 where
  pub id : Str
  pub role : Role
  pub addr : Str
  pub seen : ℤ
  pub boot : Bool

-- Peer, as ImportPeers reads it.
pub record Peer : Type 0 where
  pub id : Str
  pub addr : Str
  pub role : Role
  pub seen : ℤ

-- `json.MarshalIndent` and `json.Unmarshal` of the two kinds of lists, and `strings.TrimSpace`.
pub record PeerLibrary : Type 0 where
  pub write_list : List PeerInfo → Str
  pub read_list : Str → Option (List PeerInfo)
  pub read_peers : Str → Option (List Peer)
  pub trim_space : Str → Str

-- The variables of the package that the registry has, and the files.
pub record Registry : Type 0 where
  pub node_id : Str
  pub current_role : Role
  pub peers : Dict PeerInfo
  pub files : Files

abbrev pub peers_file : Str
peers_file = codes "peers.json"

-- `peers[p.ID] = p` for each
unfoldable pub put_peers : List PeerInfo → Dict PeerInfo → Dict PeerInfo
put_peers [] m = m
put_peers (p ∷ ps) m = put_peers ps (insert p.id p m)

abbrev pub values : Dict PeerInfo → List PeerInfo
values = map (λ e. e.1)

unfoldable pub list_peers : Schedule PeerInfo → Registry → List PeerInfo
list_peers order r = order.arrange (values r.peers)

-- `HYPERLUX_ROLE`
unfoldable pub role_of : Str → Role
role_of env =
    let r = to_lower env in
    if equals r (codes "boot")
    then role_boot
    else if equals r (codes "main")
    then codes "main"
    else if equals r (codes "sub")
    then codes "sub"
    else role_public

-- `strings.Split` at commas.
unfoldable pub split_commas : Str → Str → List Str
split_commas acc [] = acc ∷ []
split_commas acc (b ∷ s) =
    let here = acc ∷ split_commas [] s in
    let later = split_commas (acc ++ (b ∷ [])) s in if b == b',' then here else later

unfoldable pub boot_addrs : List PeerInfo → List Str
boot_addrs [] = []
boot_addrs (p ∷ ps) =
    let rest = boot_addrs ps in
    if p.boot then if is_empty p.addr then rest else p.addr ∷ rest else rest

module _ (lib : PeerLibrary) where
  unfoldable pub load_peers : Registry → Registry
  unfolding put_peers
  load_peers r = elim (lookup peers_file r.files) [
    | none ↦ r
    | some text ↦ elim (lib.read_list text) [
      | none ↦ r
      | some ps ↦ record r { peers = put_peers ps r.peers }
    ]
  ]

  unfoldable pub save_peers : Schedule PeerInfo → Registry → Registry
  unfolding list_peers
  save_peers order r = record r {
    files = insert peers_file (lib.write_list (list_peers order r)) r.files;
  }

  -- The clock reading is in seconds.
  unfoldable pub register_peer_remote :
      Schedule PeerInfo → ℤ → Str → Role → Str → Bool → Registry → Registry
  unfolding save_peers
  register_peer_remote order now id role addr boot r =
      let p : PeerInfo = record { id = id; role = role; addr = addr; seen = now; boot = boot } in
      save_peers order (record r { peers = insert id p r.peers })

  unfoldable pub register_self : Schedule PeerInfo → ℤ → Str → Role → Bool → Registry → Registry
  unfolding register_peer_remote
  register_self order now addr role boot r =
      register_peer_remote order now r.node_id role addr boot r

  unfoldable pub connect_peer : Schedule PeerInfo → ℤ → Peer → Registry → Registry
  unfolding register_peer_remote
  connect_peer order now p r =
      register_peer_remote order now p.id p.role p.addr (equals p.role role_boot) r

  unfoldable pub export_peers : Schedule PeerInfo → Str → Registry → Registry
  unfolding list_peers
  export_peers order path r = record r {
    files = insert path (lib.write_list (list_peers order r)) r.files;
  }

  -- Each call of RegisterPeerRemote saves the list anew: its n-th order and clock reading are at n.
  unfoldable pub import_each :
      (ℕ → Schedule PeerInfo) → (ℕ → ℤ) → ℕ → List Peer → Registry → Registry
  unfolding connect_peer
  import_each order now n [] r = r
  import_each order now n (p ∷ ps) r =
      import_each order now (n + 1) ps (connect_peer (order n) (now n) p r)

  -- `none` is an error.
  unfoldable pub import_peers : (ℕ → Schedule PeerInfo) → (ℕ → ℤ) → Str → Registry → Option Registry
  unfolding import_each
  import_peers order now path r = elim (lookup path r.files) [
    | none ↦ none
    | some text ↦ elim (lib.read_peers text) [
      | none ↦ none
      | some ps ↦ some (import_each order now 0 ps r)
    ]
  ]

  unfoldable pub touch_self_addr : Schedule PeerInfo → ℤ → Str → Registry → Registry
  unfolding save_peers
  touch_self_addr order now addr r = elim (lookup r.node_id r.peers) [
    | none ↦ save_peers order r
    | some me ↦
        save_peers order
          (record r { peers = insert r.node_id (record me { addr = addr; seen = now }) r.peers })
  ]

  unfoldable pub trimmed : List Str → List Str
  trimmed [] = []
  trimmed (s ∷ ss) =
      let rest = trimmed ss in if is_empty (lib.trim_space s) then rest else lib.trim_space s ∷ rest

  -- The first argument is `HYPERLUX_BOOTSTRAP`.
  unfoldable pub get_bootstrap_addrs : Str → Schedule PeerInfo → Registry → List Str
  unfolding trimmed split_commas boot_addrs list_peers
  get_bootstrap_addrs env order r =
      let given = trimmed (split_commas [] env) in
      let known = boot_addrs (list_peers order r) in
      if is_empty env then known else if is_empty given then known else given

  -- InitNetwork up to `getBootstrapAddrs`, with random bytes, `HYPERLUX_ROLE` and the clock.
  unfoldable pub init_network : Schedule PeerInfo → Str → Str → ℤ → Registry → Registry
  unfolding role_of load_peers register_self
  init_network order rnd env now r =
      let id = if is_empty r.node_id then codes "node-" ++ hex_encode rnd else r.node_id in
      let named = load_peers (record r { node_id = id; current_role = role_of env }) in
      register_self order now [] (role_of env) (equals (role_of env) role_boot) named
