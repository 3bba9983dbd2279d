-- ===== src/Peer/Announce.antt =====
-- peer.rs, announcements in: `update_peer_ports`, and the two kinds of stream that a peer opens.
pub mod Kept
pub mod Created
pub mod Settled
pub mod Released
pub mod Since
pub mod Claims
pub mod Gone
pub mod Update
pub mod Preserved
use ig.Base.{
  ℕ, ◌≡◌, Bool, true, false, not, Option, none, some, List, [], ◌∷◌, if◌then◌else◌, contains,
}
use ig.Base.Map.{Map, get, contains_key}
use ig.Grants.{allows}
use ig.Service.{Backend, backend}
use ig.Peer.{
  Peer, PeerManager, PeerMessage, exposed_ports, connect, enroll, error, World, with_peer,
}
use ig.Peer.Binding.{local_for, find_holder, probe_peer, create_binding, release_binding, evict}

abbrev pub object_id : Option Peer → ℕ
object_id none = 0
object_id (some p) = p.endpoint_id

abbrev pub object_exposed : Option Peer → List ℕ
object_exposed none = []
object_exposed (some p) = p.exposed

abbrev pub object_bound : ℕ → Option Peer → Bool
object_bound port none = false
object_bound port (some p) = contains_key port p.bindings

-- Listeners for ports that are no longer announced go.
pub release_gone : ℕ → List ℕ → List ℕ → PeerManager → PeerManager
release_gone addr [] new_ports m = m
release_gone addr (port ∷ old_ports) new_ports m =
    release_gone addr old_ports new_ports
      (if not (contains new_ports port) then release_binding addr port m else m)

-- What becomes of one port: the manager after, and whether the announcer may go on. A live holder
-- of the local port has the announcer evicted, a stale one is evicted itself.
settle : World → ℕ → ℕ → Option ℕ → PeerManager → PeerManager × Bool
settle w addr port none m = (create_binding w addr port m, true)
settle w addr port (some holder) m =
    if probe_peer w m holder
    then (evict w (object_id (get addr m.objects)) m, false)
    else (create_binding w addr port (evict w (object_id (get holder m.objects)) m), true)

pub claim_port : World → ℕ → ℕ → PeerManager → PeerManager × Bool
unfolding settle
claim_port w addr port m =
    if object_bound port (get addr m.objects)
    then (m, true)
    else settle w addr port (find_holder m (local_for m port) (object_id (get addr m.objects))) m

go_on : PeerManager × Bool → (PeerManager → PeerManager × Bool) → PeerManager × Bool
go_on (m, true) rest = rest m
go_on (m, false) rest = (m, false)

pub claim_ports : World → ℕ → List ℕ → PeerManager → PeerManager × Bool
unfolding claim_port go_on
claim_ports w addr [] m = (m, true)
claim_ports w addr (port ∷ ports) m = go_on (claim_port w addr port m) (claim_ports w addr ports)

abbrev pub set_exposed : List ℕ → Peer → Peer
set_exposed ports p = record p { exposed = ports }

record_ports : ℕ → List ℕ → PeerManager × Bool → PeerManager
record_ports addr new_ports (m, true) = with_peer addr (set_exposed new_ports) m
record_ports addr new_ports (m, false) = m

unfoldable pub update_peer_ports : World → ℕ → List ℕ → PeerManager → PeerManager
unfolding release_gone claim_ports record_ports
update_peer_ports w addr new_ports m = record_ports addr new_ports (
    claim_ports w addr new_ports
      (release_gone addr (object_exposed (get addr m.objects)) new_ports m))

-- What arrives on a control stream: a message, or nothing that can be read as one.
pub data Incoming : Type 0 where
  message : PeerMessage → Incoming
  garbage : Incoming

unfoldable pub handle_uni_stream : World → ℕ → Incoming → PeerManager → PeerManager
handle_uni_stream w addr (message (exposed_ports ports)) m = update_peer_ports w addr ports m
handle_uni_stream w addr (message (connect port)) m = m
handle_uni_stream w addr (message (enroll token)) m = m
handle_uni_stream w addr (message (error e)) m = m
handle_uni_stream w addr garbage m = m

-- A tunnel request: what serves it, or `none` where it is refused.
unfoldable pub handle_bi_stream : ℕ → ℕ → PeerManager → Option Backend
handle_bi_stream addr port m =
    if not (allows m.grants port (object_id (get addr m.objects)))
    then none
    else some (backend m.services port)
