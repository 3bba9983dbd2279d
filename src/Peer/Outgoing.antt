-- ===== src/Peer/Outgoing.antt =====
-- peer.rs, announcements out: what each peer is told, and the listings.
pub mod Sent
use ig.Base.{ℕ, ◌≡◌, Bool, true, false, Option, none, some, List, [], ◌∷◌, ◌++◌, if◌then◌else◌}
use ig.Base.Map.{Map, get, keys}
use ig.Base.Text.{Text}
use ig.Grants.{ports_for}
use ig.Peer.{Peer, PeerManager, PeerMessage, exposed_ports, World, is_open}
use ig.Peer.Binding.{object_connection, addresses}
use ig.Peer.Announce.{object_id}

-- A message that does not get through is logged.
unfoldable pub send_message : World → ℕ → PeerMessage → PeerManager → PeerManager
send_message w c msg m = if w.delivers c then record m { sent = (c, msg) ∷ m.sent } else m

send_on : World → Option ℕ → PeerMessage → PeerManager → PeerManager
unfolding send_message
send_on w none msg m = m
send_on w (some c) msg m = send_message w c msg m

unfoldable pub send_exposed_ports_to_peer : World → ℕ → PeerManager → PeerManager
unfolding send_on
send_exposed_ports_to_peer w addr m =
    let object = get addr m.objects in
    send_on w (object_connection object) (exposed_ports (ports_for m.grants (object_id object))) m

send_to_each : World → List ℕ → PeerManager → PeerManager
unfolding send_exposed_ports_to_peer
send_to_each w [] m = m
send_to_each w (addr ∷ addrs) m = send_to_each w addrs (send_exposed_ports_to_peer w addr m)

unfoldable pub broadcast_grants : World → PeerManager → PeerManager
unfolding send_to_each
broadcast_grants w m = send_to_each w (addresses m.peers) m

unfoldable pub peer_ids : PeerManager → List ℕ
peer_ids m = keys m.peers

pub record PeerInfo : Type 0 where
  pub key : Text
  pub label : Option Text
  pub online : Bool
  pub they_expose : List ℕ

pub record BindingInfo : Type 0 where
  pub port : ℕ
  pub local : ℕ
  pub peer : Text

connected : World → PeerManager → Option ℕ → Bool
connected w m none = false
connected w m (some c) = is_open w m c

peer_info : World → PeerManager → Option Peer → List PeerInfo
unfolding connected
peer_info w m none = []
peer_info w m (some p) =
    record {
      key = w.key_text p.endpoint_id;
      label = p.label;
      online = connected w m p.connection;
      they_expose = p.exposed;
    }
    ∷ []

infos : World → PeerManager → List ℕ → List PeerInfo
unfolding peer_info
infos w m [] = []
infos w m (addr ∷ addrs) = peer_info w m (get addr m.objects) ++ infos w m addrs

unfoldable pub list : World → PeerManager → List PeerInfo
unfolding infos
list w m = infos w m (addresses m.peers)

binding_rows : Text → Map ℕ → List BindingInfo
binding_rows peer [] = []
binding_rows peer ((port, local) ∷ bindings) =
    record { port = port; local = local; peer = peer } ∷ binding_rows peer bindings

object_rows : World → Option Peer → List BindingInfo
unfolding binding_rows
object_rows w none = []
object_rows w (some p) = binding_rows (w.key_text p.endpoint_id) p.bindings

rows : World → PeerManager → List ℕ → List BindingInfo
unfolding object_rows
rows w m [] = []
rows w m (addr ∷ addrs) = object_rows w (get addr m.objects) ++ rows w m addrs

unfoldable pub list_bindings : World → PeerManager → List BindingInfo
unfolding rows
list_bindings w m = rows w m (addresses m.peers)
