-- ===== src/Peer/Binding.antt =====
-- peer.rs, the local listeners: where an announced port lands, who holds a local port, creating and
-- releasing a listener, and evicting a peer. The bind lock makes each operation here one step.
pub mod Recreated
pub mod Liveness
pub mod Heap
pub mod Evicted
pub mod Holder
pub mod Rebind
pub mod Moved
pub mod Invariant
use ig.Base.{
  ℕ, ◌≡◌, Bool, true, false, not, ◌&&◌, ◌||◌, Option, none, some, List, [], ◌∷◌, ◌++◌, ◌==◌,
  if◌then◌else◌, contains, unwrap_or,
}
use ig.Base.Map.{Map, get, insert, keys, contains_key, to_btree}
use ig.Base.Map
use ig.Base.Text.{Text}
use ig.Grants.{revoke_grantee}
use ig.Pins
use ig.Peer.{Peer, PeerManager, World, with_peer, close, is_open}

unfoldable pub local_for : PeerManager → ℕ → ℕ
local_for m port = unwrap_or (get port m.binds) port

-- Is one of these listeners on the local port?
unfoldable pub holds : ℕ → Map ℕ → Bool
holds local [] = false
holds local ((port, l) ∷ bindings) = l == local || holds local bindings

pub peer_holds : ℕ → Option Peer → Bool
peer_holds local none = false
peer_holds local (some p) = holds local p.bindings

find_entry : Map Peer → ℕ → ℕ → Map ℕ → Option ℕ
unfolding peer_holds
find_entry objects local exclude [] = none
find_entry objects local exclude ((id, addr) ∷ peers) =
    if not (id == exclude) && peer_holds local (get addr objects)
    then some addr
    else find_entry objects local exclude peers

unfoldable pub find_holder : PeerManager → ℕ → ℕ → Option ℕ
unfolding find_entry
find_holder m local exclude =
    if local == 0 then none else find_entry m.objects local exclude m.peers

probe_connection : World → PeerManager → Option ℕ → Bool
probe_connection w m none = false
probe_connection w m (some c) = is_open w m c && (w.responds c && is_open w m c)

probe_object : World → PeerManager → Option Peer → Bool
probe_object w m none = false
probe_object w m (some p) = probe_connection w m p.connection

unfoldable pub probe_peer : World → PeerManager → ℕ → Bool
unfolding probe_object probe_connection
probe_peer w m addr = probe_object w m (get addr m.objects)

-- Every local port that a listener of this process holds.
locals : Map ℕ → List ℕ
locals [] = []
locals ((port, l) ∷ bindings) = l ∷ locals bindings

held_by : Map Peer → List ℕ
held_by [] = []
held_by ((addr, p) ∷ objects) = locals p.bindings ++ held_by objects

unfoldable pub held : PeerManager → List ℕ
unfolding held_by locals
held m = held_by m.objects

abbrev pub add_binding : ℕ → ℕ → Peer → Peer
add_binding port local p = record p { bindings = insert port local p.bindings }

bound : ℕ → ℕ → Option ℕ → PeerManager → PeerManager
bound addr port none m = m
bound addr port (some local) m = with_peer addr (add_binding port local) m

-- A bind that fails is logged, and records nothing.
unfoldable pub create_binding : World → ℕ → ℕ → PeerManager → PeerManager
unfolding bound
create_binding w addr port m = bound addr port (w.bind_os (held m) (local_for m port)) m

abbrev pub drop_binding : ℕ → Peer → Peer
drop_binding port p = record p { bindings = Map.remove port p.bindings }

unfoldable pub release_binding : ℕ → ℕ → PeerManager → PeerManager
release_binding addr port m = with_peer addr (drop_binding port) m

pub release_each : ℕ → List ℕ → PeerManager → PeerManager
release_each addr [] m = m
release_each addr (port ∷ ports) m = release_each addr ports (release_binding addr port m)

abbrev pub object_ports : Option Peer → List ℕ
object_ports none = []
object_ports (some p) = keys p.bindings

abbrev pub object_connection : Option Peer → Option ℕ
object_connection none = none
object_connection (some p) = p.connection

-- `if let Some(conn) = peer.connection.take() { conn.close() }`.
unfoldable pub close_taken : Option ℕ → PeerManager → PeerManager
close_taken none m = m
close_taken (some c) m = close c m

abbrev pub mark_removed : Peer → Peer
mark_removed p = record p { removed = true; notified = true; connection = none }

drop_peer : ℕ → Option ℕ → PeerManager → PeerManager
unfolding release_each release_binding close_taken
drop_peer id none m = m
drop_peer id (some addr) m =
    let object = get addr m.objects in
    release_each addr (object_ports object) (
      close_taken (object_connection object)
        (with_peer addr mark_removed (record m { peers = Map.remove id m.peers })))

-- A pin that cannot be deleted is logged, and stays on disk.
unfoldable pub evict : World → ℕ → PeerManager → PeerManager
unfolding drop_peer
evict w id m =
    let dropped = drop_peer id (get id m.peers) m in
    record dropped {
      grants = revoke_grantee dropped.grants id;
      disk =
          (Pins.remove w.pin_codec dropped.pins w.pid (w.key_text id) w.pin_answers dropped.disk).0;
    }

-- The address of the object, and its key, in the table.
release_all : List ℕ → ℕ → PeerManager → PeerManager
unfolding release_binding
release_all [] port m = m
release_all (addr ∷ addrs) port m = release_all addrs port (release_binding addr port m)

abbrev pub exposes : ℕ → Option Peer → Bool
exposes port none = false
exposes port (some p) = contains p.exposed port

pub recreate_all : World → List ℕ → ℕ → PeerManager → PeerManager
unfolding create_binding
recreate_all w [] port m = m
recreate_all w (addr ∷ addrs) port m =
    recreate_all w addrs port
      (if exposes port (get addr m.objects) then create_binding w addr port m else m)

abbrev pub set_local : ℕ → Option ℕ → PeerManager → PeerManager
set_local port none m = record m { binds = Map.remove port m.binds }
set_local port (some local) m = record m { binds = insert port local m.binds }

-- The addresses in the table.
pub addresses : Map ℕ → List ℕ
addresses [] = []
addresses ((id, addr) ∷ peers) = addr ∷ addresses peers

unfoldable pub set_bind : World → ℕ → Option ℕ → PeerManager → PeerManager
unfolding release_all recreate_all addresses
set_bind w port local m =
    let addrs = addresses m.peers in
    recreate_all w addrs port (release_all addrs port (set_local port local m))

unfoldable pub binds_snapshot : PeerManager → Map ℕ
binds_snapshot m = to_btree m.binds
