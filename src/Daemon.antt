-- ===== src/Daemon.antt =====
-- daemon.rs: the state of a daemon, what it saves and restores, and the operations behind the
-- requests. `Host` adds to the peers' world what the daemon's own file and tokens need.
mod Tests
pub mod Restored
pub mod Startup
pub mod Commands
pub mod History
pub mod Restart
pub mod Control
pub mod Key
pub mod Socket
pub mod Run
use ig.Base.{
  ℕ, ◌≡◌, Bool, true, false, not, ◌&&◌, Option, none, some, List, [], ◌∷◌, ◌++◌, if◌then◌else◌,
  contains,
}
use ig.Base.Map.{Map, get}
use ig.Base.Text.{Text, text}
use ig.Failure.{Error, Result, ok, err, fail, invalid, ◌>>=◌}
use ig.Backend.{BackendSpec}
use ig.Grants
use ig.Service
use ig.Service.{Services}
use ig.Disk.{Answers, Codec}
use ig.Pins
use ig.Pins.{Pin, pins_path}
use ig.Peer.Roster.{add_pinned}
use ig.Peer.History.{new_manager}
use ig.Disk.{Disk}
use ig.State
use ig.State.{State}
use ig.Peer.{PeerManager, World}
use ig.Peer.Binding.{set_bind, binds_snapshot}
use ig.Peer.Outgoing.{PeerInfo, BindingInfo, broadcast_grants, list_bindings}
use ig.Peer.Outgoing
use ig.Protocol.{ListInfo, ExposedInfo, GrantInfo, RemapInfo}

pub record Daemon : Type 0 where
  pub me : ℕ
  pub store : Text
  pub manager : PeerManager

pub record Host : Type 0 where
  pub world : World
  pub open world use *
  pub state_codec : Codec State
  pub state_answers : Answers
  pub random : List ℕ

-- A pin that cannot be loaded is logged.
load_pinned : World → List Pin → PeerManager → PeerManager
load_pinned w [] m = m
load_pinned w (p ∷ pins) m = load_pinned w pins (add_pinned w p.key p.label m).0

with_pins : World → ℕ → Text → Services → Disk → Result (List Pin) → Result Daemon
unfolding load_pinned
with_pins w me key_path services disk (err e) = err e
with_pins w me key_path services disk (ok pins) = ok (record {
  me = me;
  store = State.store_path key_path;
  manager = load_pinned w pins (new_manager services (pins_path key_path) disk);
})

-- `Daemon::new`, once the endpoint of the key is up: `me` is its id.
unfoldable pub new : World → ℕ → Text → Services → Answers → Disk → Result Daemon
unfolding with_pins
new w me key_path services a disk =
    with_pins w me key_path services disk (Pins.load w.pin_codec (pins_path key_path) a disk)

-- A typo in a key is an invalid request.
unfoldable pub parse_key : World → Text → Result ℕ
parse_key w key = elim (w.parse key) [
  | some id ↦ ok id
  | none ↦ err (fail invalid (text "invalid peer key: " ++ w.parse_error key))
]

unfoldable pub ticket : World → Daemon → Text
ticket w d = w.key_text d.me

pub grant_rows : World → List (ℕ × ℕ) → List (ℕ × Text)
grant_rows w [] = []
grant_rows w ((port, to) ∷ rows) = (port, w.key_text to) ∷ grant_rows w rows

-- The version is stamped by the store.
unfoldable pub snapshot : World → Daemon → State
unfolding grant_rows
snapshot w d = record {
  version = 0;
  grants = grant_rows w (Grants.all d.manager.grants);
  services = Service.snapshot d.manager.services;
  binds = binds_snapshot d.manager;
}

abbrev pub on_manager : (PeerManager → PeerManager) → Daemon → Daemon
on_manager f d = record d { manager = f d.manager }

-- No other request persists in the meantime, which the source does not exclude.
unfoldable pub persist : Host → Daemon → Daemon × Result (Unit {0})
persist h d =
    let saved =
      State.save h.state_codec d.store h.pid (snapshot h.world d) h.state_answers d.manager.disk in
    (on_manager (λ m. record m { disk = saved.0 }) d, saved.1)

-- A port that a --service file claimed keeps it.
pub restore_service : ℕ → BackendSpec → Services → Result Services
restore_service port spec s =
    if not (Service.contains s port) then Service.register s port spec else ok s

-- The first spec that is refused ends the run; what was registered before it stays.
or_stop :
    Services
    → Result Services
    → (Services → Services × Result (Unit {0}))
    → Services × Result (Unit {0})
or_stop s (err e) rest = (s, err e)
or_stop s (ok s') rest = rest s'

pub restore_services : Map BackendSpec → Services → Services × Result (Unit {0})
unfolding restore_service or_stop
restore_services [] s = (s, ok tt)
restore_services ((port, spec) ∷ specs) s =
    or_stop s (restore_service port spec s) (restore_services specs)

restore_grant : ℕ → Option ℕ → Grants.Grants → Grants.Grants
restore_grant port none g = g
restore_grant port (some id) g = Grants.add g port id

-- A key that does not parse is dropped with a warning.
pub restore_grants : World → List (ℕ × Text) → Grants.Grants → Grants.Grants
unfolding restore_grant
restore_grants w [] g = g
restore_grants w ((port, key) ∷ rows) g = restore_grants w rows (restore_grant port (w.parse key) g)

pub set_binds : World → List (ℕ × ℕ) → PeerManager → PeerManager
set_binds w [] m = m
set_binds w ((port, local) ∷ binds) m = set_binds w binds (set_bind w port (some local) m)

restored : World → State → Services × Result (Unit {0}) → Daemon → Daemon × Result (Unit {0})
unfolding restore_grants set_binds
restored w state (services, err e) d = (on_manager (λ m. record m { services = services }) d, err e)
restored w state (services, ok _) d = (
  on_manager (set_binds w state.binds) (
      on_manager
        (λ m. record m { services = services; grants = restore_grants w state.grants m.grants }) d),
  ok tt,
)

unfoldable pub restore : World → State → Daemon → Daemon × Result (Unit {0})
unfolding restore_services restored
restore w state d = restored w state (restore_services state.services d.manager.services) d

grant_each : ℕ → List ℕ → Grants.Grants → Grants.Grants
grant_each port [] g = g
grant_each port (to ∷ others) g = grant_each port others (Grants.add g port to)

unfoldable pub expose : World → ℕ → List ℕ → Daemon → Daemon
unfolding grant_each
expose w port to d =
    on_manager (λ m. broadcast_grants w (record m { grants = grant_each port to m.grants })) d

-- A port whose last grantee goes away retires its service with it.
pub retire : ℕ → Grants.Grants → Services → Services
retire port grants services =
    if not (contains (Grants.ports grants) port) then (Service.remove services port).0 else services

unfoldable pub unexpose : World → ℕ → Option ℕ → Daemon → Daemon
unfolding retire
unexpose w port to d =
    on_manager
      (λ m.
        let grants = Grants.remove m.grants port to in
        broadcast_grants w (record m { grants = grants; services = retire port grants m.services }))
      d

exposed_rows : Services → List ℕ → List ExposedInfo
exposed_rows s [] = []
exposed_rows s (port ∷ ports) =
    record { port = port; backend = Service.describe s port } ∷ exposed_rows s ports

grant_infos : World → List (ℕ × ℕ) → List GrantInfo
grant_infos w [] = []
grant_infos w ((port, to) ∷ rows) = record { port = port; to = w.key_text to } ∷ grant_infos w rows

remap_rows : List (ℕ × ℕ) → List RemapInfo
remap_rows [] = []
remap_rows ((port, local) ∷ binds) = record { port = port; local = local } ∷ remap_rows binds

unfoldable pub list : World → Daemon → ListInfo
unfolding exposed_rows grant_infos remap_rows
list w d = record {
  me = w.key_text d.me;
  peers = Outgoing.list w d.manager;
  i_expose = exposed_rows d.manager.services (Grants.ports d.manager.grants);
  grants = grant_infos w (Grants.all d.manager.grants);
  bindings = list_bindings w d.manager;
  remaps = remap_rows (binds_snapshot d.manager);
}
