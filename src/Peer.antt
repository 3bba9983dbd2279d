-- ===== src/Peer.antt =====
-- peer.rs, the state: peers as shared objects (`Arc<Peer>`) on a heap, the table of the peers that
-- are known, and what the manager shares with the daemon. `World` is what the surroundings answer
-- while one operation runs: the operating system, the other machines and the iroh library.
pub mod Sample
mod Tests
pub mod Binding
pub mod Announce
pub mod Streams
pub mod Connection
pub mod Outgoing
pub mod Loop
pub mod Roster
pub mod History
use ig.Base.{
  ℕ, suc, ◌≤◌, ◌≡◌, Bool, true, false, not, ◌&&◌, ◌||◌, Option, none, some, List, [], ◌∷◌, ◌++◌,
  ◌==◌, if◌then◌else◌, contains, unwrap_or, is_some, Distinct,
}
use ig.Base.Map.{Map, get, insert, keys, contains_key}
use ig.Base.Text.{Text}
use ig.Grants.{Grants}
use ig.Enroll.{Tokens}
use ig.Pins.{Pin}
use ig.Service.{Services}
use ig.Disk.{Disk, Answers, Codec}

-- The messages between peers.
pub data PeerMessage : Type 0 where
  exposed_ports : List ℕ → PeerMessage
  connect : ℕ → PeerMessage
  enroll : Text → PeerMessage
  error : Text → PeerMessage

-- A connection is known by a number; `bindings` takes an announced port to the local port that
-- listens for it.
pub record Peer : Type 0 where
  pub endpoint_id : ℕ
  pub label : Option Text
  pub dial : Bool
  pub enroll_token : Option Text
  pub connection : Option ℕ
  pub exposed : List ℕ
  pub bindings : Map ℕ
  pub notified : Bool
  pub removed : Bool

-- `Peer::new`.
unfoldable pub new_peer : ℕ → Option Text → Bool → Option Text → Option ℕ → Peer
new_peer id label dial token connection = record {
  endpoint_id = id;
  label = label;
  dial = dial;
  enroll_token = token;
  connection = connection;
  exposed = [];
  bindings = [];
  notified = false;
  removed = false;
}

-- `objects` is the heap, `next` its first free address, and `peers` takes a key to an address.
-- `closed` and `sent` record the connections that were closed here, and the messages that went out.
pub record PeerManager : Type 0 where
  pub objects : Map Peer
  pub next : ℕ
  pub peers : Map ℕ
  pub binds : Map ℕ
  pub grants : Grants
  pub tokens : Tokens
  pub services : Services
  pub disk : Disk
  pub pins : Text
  pub closed : List ℕ
  pub sent : List (ℕ × PeerMessage)

pub record World : Type 0 where
  -- The keys of iroh and their texts.
  pub parse : Text → Option ℕ
  pub parse_error : Text → Text
  pub key_text : ℕ → Text
  -- `TcpListener::bind`: from the local ports that this process holds and the one that is asked
  -- for, the one that listens, or nothing.
  pub bind_os : List ℕ → ℕ → Option ℕ
  -- Does the other end keep this connection open, and does it answer a probe in time?
  pub remote_open : ℕ → Bool
  pub responds : ℕ → Bool
  -- `Endpoint::connect`, and whether a message gets through.
  pub dial : ℕ → Option ℕ
  pub dial_error : ℕ → Text
  pub delivers : ℕ → Bool
  pub now : ℕ
  pub pid : ℕ
  pub pin_codec : Codec (List Pin)
  pub pin_answers : Answers

-- The object at an address, rewritten.
unfoldable pub on_object : ℕ → (Peer → Peer) → Map Peer → Map Peer
on_object addr f [] = []
on_object addr f ((a, p) ∷ objects) =
    if a == addr then (a, f p) ∷ objects else (a, p) ∷ on_object addr f objects

abbrev pub with_peer : ℕ → (Peer → Peer) → PeerManager → PeerManager
with_peer addr f m = record m { objects = on_object addr f m.objects }

-- A new object under its key, as `self.peers.insert(id, Peer::new(...))`.
unfoldable pub admit : Peer → PeerManager → PeerManager
admit p m = record m {
  objects = insert m.next p m.objects;
  next = suc m.next;
  peers = insert p.endpoint_id m.next m.peers;
}

abbrev pub close : ℕ → PeerManager → PeerManager
close c m = record m { closed = c ∷ m.closed }

-- `conn.close_reason().is_none()`.
abbrev pub is_open : World → PeerManager → ℕ → Bool
is_open w m c = not (contains m.closed c) && w.remote_open c

-- The table and the heap agree: each key leads to an object of its own that is not removed, and
-- there are no objects beyond the first free address.
pub record IsValid (m : PeerManager) : Type 0 where
  pub one_entry : Distinct (keys m.peers)
  pub points :
      (id addr : ℕ)
      → get id m.peers ≡ some addr
      → (p : Peer) × (get addr m.objects ≡ some p) × (p.endpoint_id ≡ id) × (p.removed ≡ false)
  pub fresh : (addr : ℕ) → m.next ≤ addr → get addr m.objects ≡ none
