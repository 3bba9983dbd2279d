-- ===== src/Peer/History.antt =====
-- A manager through any sequence of what can happen to it.
use ig.Base.{ℕ, refl, Option, none, some, List, [], ◌∷◌}
use ig.Base.Map.{keys, get}
use ig.Base.Text.{Text}
use ig.Grants
use ig.Grants.Invariant.{default-IsValid}
use ig.Service
use ig.Service.{Services}
use ig.Enroll
use ig.Disk.{Disk}
use ig.Peer.{PeerManager, World}
use ig.Peer.Binding.{set_bind, set_local}
use ig.Peer.Binding.Rebind.{set_bind-keeps}
use ig.Peer.Announce.{Incoming, handle_uni_stream}
use ig.Peer.Announce.Preserved.{handle_uni_stream-keeps}
use ig.Peer.Roster.{add_peer, pin_peer, remove_peer, handle_connection, redialled}
use ig.Peer.Roster.Invariant.{
  add_peer-Sound, pin_peer-Sound, remove_peer-Sound, handle_connection-Sound, redialled-Sound,
}
use ig.Peer.Roster.Sharing.{Sound, touch-Sound, evict-Sound}

-- `PeerManager::new`, before anything was granted and with no token pending.
unfoldable pub new_manager : Services → Text → Disk → PeerManager
new_manager services pins disk = record {
  objects = [];
  next = 0;
  peers = [];
  binds = [];
  grants = Grants.default;
  tokens = Enroll.default;
  services = services;
  disk = disk;
  pins = pins;
  closed = [];
  sent = [];
}

pub data Event : Type 0 where
  dials : Text → Option Text → Event
  pinning : Text → Text → Event
  removes : Text → Event
  connects : ℕ → ℕ → List Incoming → Event
  hears : ℕ → Incoming → Event
  redials : ℕ → ℕ → Event
  remaps : ℕ → Option ℕ → Event

unfoldable pub happen : World → Event → PeerManager → PeerManager
happen w (dials ticket token) m = (add_peer w ticket token m).0
happen w (pinning key label) m = (pin_peer w key label m).0
happen w (removes ticket) m = (remove_peer w ticket m).0
happen w (connects id c events) m = (handle_connection w id c events m).0
happen w (hears addr event) m = handle_uni_stream w addr event m
happen w (redials addr c) m = redialled w addr c m
happen w (remaps port local) m = set_bind w port local m

pub set_local-Sound :
    (port : ℕ) (local : Option ℕ) (m : PeerManager) → Sound m → Sound (set_local port local m)
set_local-Sound port none m s = record {
  table = record { one_entry = s.table.one_entry; points = s.table.points; fresh = s.table.fresh };
  grants = s.grants;
  services = s.services;
  tokens = s.tokens;
}
set_local-Sound port (some local) m s = record {
  table = record { one_entry = s.table.one_entry; points = s.table.points; fresh = s.table.fresh };
  grants = s.grants;
  services = s.services;
  tokens = s.tokens;
}

pub happen-Sound : (w : World) (e : Event) (m : PeerManager) → Sound m → Sound (happen w e m)
unfolding happen
happen-Sound w (dials ticket token) m s = add_peer-Sound w ticket token m s
happen-Sound w (pinning key label) m s = pin_peer-Sound w key label m s
happen-Sound w (removes ticket) m s = remove_peer-Sound w ticket m s
happen-Sound w (connects id c events) m s = handle_connection-Sound w id c events m s
happen-Sound w (hears addr event) m s =
    handle_uni_stream-keeps w Sound touch-Sound (evict-Sound w) addr event m s
happen-Sound w (redials addr c) m s = redialled-Sound w addr c m s
happen-Sound w (remaps port local) m s =
    set_bind-keeps Sound touch-Sound w port local m (set_local-Sound port local m s)

-- Each event comes with what the surroundings answer to it.
unfoldable pub run : List (World × Event) → PeerManager → PeerManager
run [] m = m
run ((w, e) ∷ events) m = run events (happen w e m)

run-Sound : (events : List (World × Event)) (m : PeerManager) → Sound m → Sound (run events m)
unfolding run
run-Sound [] m s = s
run-Sound ((w, e) ∷ events) m s = run-Sound events (happen w e m) (happen-Sound w e m s)

pub new_manager-Sound :
    (services : Services) (path : Text) (disk : Disk)
    → Service.IsValid services
    → Sound (new_manager services path disk)
unfolding new_manager keys get
new_manager-Sound services path disk v = record {
  table = record { one_entry = tt; points = λ id a h. cc; fresh = λ a h. refl };
  grants = default-IsValid;
  services = v;
  tokens = record { one_each = tt };
}

-- Whatever the peers, the network, the operating system and the operator do, a manager keeps its
-- table and its heap in agreement: each known key leads to one object, of that key, that was not
-- removed; and the grants, services and tokens that it shares stay well formed.
pub run-new_manager-Sound :
    (services : Services) (path : Text) (disk : Disk) (events : List (World × Event))
    → Service.IsValid services
    → Sound (run events (new_manager services path disk))
run-new_manager-Sound services path disk events v =
    run-Sound events _ (new_manager-Sound services path disk v)
