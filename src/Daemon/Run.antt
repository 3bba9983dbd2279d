-- ===== src/Daemon/Run.antt =====
-- daemon.rs, `run`: from what `ig daemon` was invoked with to a daemon that accepts connections. The
-- two accept loops that follow are the handlers of the other files, called once for each connection.
pub mod Told
pub mod Configured
pub mod Overlaid
pub mod Restored
pub mod Soundness
pub mod Started
pub mod Tests
use ig.Base.{
  ℕ, ◌≡◌, Bool, true, false, ◌&&◌, Option, none, some, List, [], ◌∷◌, ◌++◌, if◌then◌else◌, is_empty,
  sort, set_insert, unwrap_or,
}
use ig.Base.Text.{Text, text}
use ig.Failure.{Error, Result, ok, err, note, with_context, ◌>>=◌}
use ig.Backend.{BackendSpec}
use ig.Service
use ig.Service.{Services, IpAddr}
use ig.Service.Files.{Loader, load_service_file}
use ig.Disk.{Disk, Answers, perform}
use ig.State
use ig.State.{State, is_empty_state}
use ig.Peer.{PeerManager, World}
use ig.Peer.Roster.{add_peer}
use ig.Peer.Outgoing.{broadcast_grants}
use ig.Daemon.{Daemon, Host, new, restore, expose, set_binds, on_manager}
use ig.Daemon.Key.{default_key_path, load_or_create_key}
use ig.Daemon.Socket.{Endpoint, dead, Sockets, bind_control_socket}

pub record Options : Type 0 where
  pub host : IpAddr
  pub peers : List Text
  pub ports : List ℕ
  pub key_path : Option Text
  pub enroll : Option Text
  pub binds : List (ℕ × ℕ)
  pub service_configs : List Text

-- What startup meets besides the `Host`: the files, the socket, the key that would be made, the id
-- that belongs to a key, and whether the endpoint of the key comes up.
pub record Boot : Type 0 where
  pub loader : Loader
  pub sockets : Sockets
  pub xdg_state_home : Option Text
  pub home : Option Text
  pub generated : List ℕ
  pub key_answers : Answers
  pub public : List ℕ → ℕ
  pub endpoint : Result (Unit {0})
  pub state_answers : Answers
  pub pin_answers : Answers

register_all : Text → List (ℕ × BackendSpec) → Services → Result Services
register_all path [] s = ok s
register_all path ((port, spec) ∷ entries) s = do
  s' ← with_context (text "in service config " ++ path) (Service.register_new s port spec)
  register_all path entries s'

unfoldable pub apply_configs : Loader → List Text → Services → Result Services
unfolding register_all
apply_configs l [] s = ok s
apply_configs l (path ∷ paths) s = do
  entries ← load_service_file l path
  s' ← register_all path entries s
  apply_configs l paths s'

unfoldable pub restore_if_any : World → State → Daemon → Daemon × Result (Unit {0})
restore_if_any w state d = if is_empty_state state then (d, ok tt) else restore w state d

-- `peers.iter().filter_map(|t| t.parse().ok())`.
unfoldable pub parsed_peers : World → List Text → List ℕ
parsed_peers w [] = []
parsed_peers w (ticket ∷ tickets) = elim (w.parse ticket) [
  | some id ↦ id ∷ parsed_peers w tickets
  | none ↦ parsed_peers w tickets
]

-- A `BTreeSet` from a chain of ports.
once_each : List ℕ → List ℕ
once_each [] = []
once_each (port ∷ ports) = set_insert port (once_each ports)

unfoldable pub port_set : List ℕ → List ℕ
unfolding once_each
port_set ports = sort (once_each ports)

unfoldable pub expose_each : World → List ℕ → List ℕ → Daemon → Daemon
expose_each w [] grantees d = d
expose_each w (port ∷ ports) grantees d = expose_each w ports grantees (expose w port grantees d)

-- A peer that cannot be added is logged.
unfoldable pub add_each : World → List Text → Option Text → PeerManager → PeerManager
add_each w [] token m = m
add_each w (ticket ∷ tickets) token m = add_each w tickets token (add_peer w ticket token m).0

unfoldable pub announce_if_any : World → List Text → PeerManager → PeerManager
announce_if_any w tickets m = if is_empty tickets then m else broadcast_grants w m

-- This run's declarations, over what was restored.
unfoldable pub overlay : World → Options → Daemon → Daemon
overlay w o d =
    let bound = on_manager (set_binds w o.binds) d in
    let ports = port_set (o.ports ++ Service.ports bound.manager.services) in
    let exposed = expose_each w ports (parsed_peers w o.peers) bound in
    on_manager (λ m. announce_if_any w o.peers (add_each w o.peers o.enroll m)) exposed

-- What is left when startup ends: the socket, the disk, and the daemon or the error.
pub record Startup : Type 0 where
  pub socket : Endpoint
  pub disk : Disk
  pub daemon : Result Daemon

-- An error after the socket was bound closes it, and its file stays.
gave_up : Disk → Error → Startup
gave_up disk e = record { socket = dead; disk = disk; daemon = err e }

overlaid : World → Options → Endpoint → Daemon × Result (Unit {0}) → Startup
unfolding gave_up
overlaid w o socket (d, err e) = gave_up d.manager.disk e
overlaid w o socket (d, ok _) =
    let started = overlay w o d in
    record { socket = socket; disk = started.manager.disk; daemon = ok started }

built : World → Options → State → Endpoint → Disk → Result Daemon → Startup
unfolding gave_up overlaid
built w o state socket disk (err e) = gave_up disk e
built w o state socket disk (ok d) = overlaid w o socket (restore_if_any w state d)

-- `Daemon::new`, from the key on.
with_endpoint :
    World
    → Boot
    → Options
    → Text
    → Services
    → State
    → Endpoint
    → Disk
    → List ℕ
    → Result (Unit {0})
    → Startup
unfolding gave_up built
with_endpoint w b o path services state socket disk key (err e) =
    gave_up disk (note (text "failed to create iroh endpoint") ∷ e)
with_endpoint w b o path services state socket disk key (ok _) =
    built w o state socket disk (new w (b.public key) path services b.pin_answers disk)

with_key :
    World → Boot → Options → Text → Services → State → Endpoint → Disk → Result (List ℕ) → Startup
unfolding gave_up with_endpoint
with_key w b o path services state socket disk (err e) = gave_up disk e
with_key w b o path services state socket disk (ok key) =
    with_endpoint w b o path services state socket disk key b.endpoint

with_state : World → Boot → Options → Text → Services → Endpoint → Disk → Result State → Startup
unfolding gave_up with_key
with_state w b o path services socket disk (err e) = gave_up disk e
with_state w b o path services socket disk (ok state) =
    let made = load_or_create_key path b.generated b.key_answers disk in
    with_key w b o path services state socket (perform made.0 disk) made.1

pub key_path_of : Boot → Options → Text
key_path_of b o = unwrap_or o.key_path (default_key_path b.xdg_state_home b.home)

with_socket : Host → Boot → Options → Services → Disk → Endpoint × Result (Unit {0}) → Startup
unfolding with_state key_path_of
with_socket h b o services disk (socket, err e) = record {
  socket = socket;
  disk = disk;
  daemon = err e;
}
with_socket h b o services disk (socket, ok _) =
    let path = key_path_of b o in
    with_state h.world b o path services socket disk
      (State.load h.state_codec (State.store_path path) b.state_answers disk)

with_services : Host → Boot → Text → Options → Endpoint → Disk → Result Services → Startup
unfolding with_socket
with_services h b socket_path o socket disk (err e) = record {
  socket = socket;
  disk = disk;
  daemon = err e;
}
with_services h b socket_path o socket disk (ok services) =
    with_socket h b o services disk (bind_control_socket socket_path b.sockets socket)

unfoldable pub run : Host → Boot → Text → Options → Endpoint → Disk → Startup
unfolding with_services
run h b socket_path o socket disk =
    with_services h b socket_path o socket disk
      (apply_configs b.loader o.service_configs (Service.new o.host))
