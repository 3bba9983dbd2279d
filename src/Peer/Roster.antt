-- ===== src/Peer/Roster.antt =====
-- peer.rs, who is known: adding, pinning and removing peers, and admitting those that call in.
pub mod Clear
pub mod Sharing
pub mod Invariant
pub mod Pinning
pub mod Dialled
pub mod Refusals
pub mod Enrollment
use ig.Base.{
  ℕ, ◌≡◌, Bool, true, false, not, ◌&&◌, ◌||◌, Option, none, some, List, [], ◌∷◌, ◌++◌,
  if◌then◌else◌,
}
use ig.Base.Map.{Map, get, contains_key}
use ig.Base.Text.{Text, text}
use ig.Failure.{Error, Result, ok, err, fail, anyhow, note, invalid, not_found, conflict, ◌>>=◌}
use ig.Enroll.{claim}
use ig.Pins
use ig.Peer.{
  Peer, PeerManager, PeerMessage, exposed_ports, connect, enroll, error, World, new_peer, admit,
  with_peer, close,
}
use ig.Peer.Binding.{local_for, find_holder, probe_peer, evict, close_taken, object_connection}
use ig.Peer.Announce.{Incoming, message, garbage, update_peer_ports}
use ig.Peer.Outgoing.{send_message, send_exposed_ports_to_peer}

-- The token is presented on the new connection, if there is one.
pub present : World → ℕ → Option Text → PeerManager → PeerManager
present w c none m = m
present w c (some token) m = send_message w c (enroll token) m

dialled : World → ℕ → Option Text → Option ℕ → PeerManager → PeerManager × Result (Unit {0})
unfolding present
dialled w id token none m =
    (m, err (fail not_found (text "cannot reach peer: " ++ w.dial_error id)))
dialled w id token (some c) m =
    (admit (new_peer id none true token (some c)) (present w c token m), ok tt)

add_key : World → Option Text → Text → Option ℕ → PeerManager → PeerManager × Result (Unit {0})
unfolding dialled
add_key w token ticket none m =
    (m, err (fail invalid (text "invalid ticket: " ++ w.parse_error ticket)))
add_key w token ticket (some id) m =
    if contains_key id m.peers
    then (m, err (fail conflict (text "peer already exists")))
    else dialled w id token (w.dial id) m

-- The wait for the dial, during which the source holds no lock, is part of the step.
unfoldable pub add_peer : World → Text → Option Text → PeerManager → PeerManager × Result (Unit {0})
unfolding add_key
add_peer w ticket token m = add_key w token ticket (w.parse ticket) m

pin_key : World → Text → Text → Option ℕ → PeerManager → PeerManager × Result (Unit {0})
pin_key w key label none m =
    (m, err (fail invalid (text "invalid peer key: " ++ w.parse_error key)))
pin_key w key label (some id) m =
    if contains_key id m.peers
    then (m, ok tt)
    else (admit (new_peer id (some label) false none none) m, ok tt)

unfoldable pub add_pinned : World → Text → Text → PeerManager → PeerManager × Result (Unit {0})
unfolding pin_key
add_pinned w key label m = pin_key w key label (w.parse key) m

-- `self.pins.add(key, label)`.
pub pin_on_disk : World → Text → Text → PeerManager → PeerManager × Result (Unit {0})
pin_on_disk w key label m =
    let saved = Pins.add w.pin_codec m.pins w.pid key label w.pin_answers m.disk in
    (record m { disk = saved.0 }, saved.1)

persist_pin :
    World → Text → Text → PeerManager × Result (Unit {0}) → PeerManager × Result (Unit {0})
unfolding pin_on_disk
persist_pin w key label (m, err e) = (m, err e)
persist_pin w key label (m, ok _) = pin_on_disk w key label m

unfoldable pub pin_peer : World → Text → Text → PeerManager → PeerManager × Result (Unit {0})
unfolding persist_pin
pin_peer w key label m = persist_pin w key label (add_pinned w key label m)

remove_key : World → Text → Option ℕ → PeerManager → PeerManager × Result (Unit {0})
remove_key w ticket none m = (m, err (note (text "invalid ticket") ∷ anyhow (w.parse_error ticket)))
remove_key w ticket (some id) m =
    if not (contains_key id m.peers)
    then (m, err (anyhow (text "peer not found")))
    else (evict w id m, ok tt)

unfoldable pub remove_peer : World → Text → PeerManager → PeerManager × Result (Unit {0})
unfolding remove_key
remove_peer w ticket m = remove_key w ticket (w.parse ticket) m

-- What an unknown peer sent before its time ran out or its connection broke: the token that it
-- presented first, and the last ports that it announced before that.
unfoldable pub presented : List Incoming → Option (List ℕ) → Option Text × Option (List ℕ)
presented [] early = (none, early)
presented (message (enroll token) ∷ events) early = (some token, early)
presented (message (exposed_ports ports) ∷ events) early = presented events (some ports)
presented (message (connect port) ∷ events) early = presented events early
presented (message (error e) ∷ events) early = presented events early
presented (garbage ∷ events) early = presented events early

live_holder : World → PeerManager → Option ℕ → Bool
live_holder w m none = false
live_holder w m (some addr) = probe_peer w m addr

collides : World → ℕ → List ℕ → PeerManager → Bool
unfolding live_holder
collides w id [] m = false
collides w id (port ∷ ports) m =
    live_holder w m (find_holder m (local_for m port) id) || collides w id ports m

pub early_collides : World → ℕ → Option (List ℕ) → PeerManager → Bool
unfolding collides
early_collides w id none m = false
early_collides w id (some ports) m = collides w id ports m

apply_early : World → ℕ → Option (List ℕ) → PeerManager → PeerManager
apply_early w addr none m = m
apply_early w addr (some ports) m = update_peer_ports w addr ports m

-- The key is pinned by now, or that failed.
enrolled :
    World
    → ℕ
    → ℕ
    → Text
    → Option (List ℕ)
    → PeerManager × Result (Unit {0})
    → PeerManager × Result (Option ℕ)
unfolding apply_early
enrolled w id c label early (m, err e) = (m, err e)
enrolled w id c label early (m, ok _) = (
  apply_early w m.next early (admit (new_peer id (some label) false none (some c)) m),
  ok (some m.next),
)

claimed :
    World → ℕ → ℕ → Option (List ℕ) → Option Text → PeerManager → PeerManager × Result (Option ℕ)
unfolding early_collides enrolled pin_on_disk
claimed w id c early none m = (close c m, ok none)
claimed w id c early (some label) m =
    if early_collides w id early m
    then (close c m, ok none)
    else enrolled w id c label early (pin_on_disk w (w.key_text id) label m)

claim_token :
    World → ℕ → ℕ → Option Text × Option (List ℕ) → PeerManager → PeerManager × Result (Option ℕ)
unfolding claimed
claim_token w id c (none, early) m = (close c m, ok none)
claim_token w id c (some token, early) m =
    let spent = claim m.tokens token w.now in
    claimed w id c early spent.1 (record m { tokens = spent.0 })

-- The manager after, and the address of the peer that was admitted. The wait for the token, during
-- which the source holds no lock, is part of the step.
unfoldable pub handle_enrollment :
    World → ℕ → ℕ → List Incoming → PeerManager → PeerManager × Result (Option ℕ)
unfolding claim_token
handle_enrollment w id c events m = claim_token w id c (presented events none) m

abbrev pub reconnected : ℕ → Peer → Peer
reconnected c p = record p { connection = some c; notified = true }

greet : World → PeerManager × Result (Option ℕ) → PeerManager × Result (Unit {0})
greet w (m, err e) = (m, err e)
greet w (m, ok none) = (m, ok tt)
greet w (m, ok (some addr)) = (send_exposed_ports_to_peer w addr m, ok tt)

reconnect : World → ℕ → ℕ → Option ℕ → List Incoming → PeerManager → PeerManager × Result (Option ℕ)
reconnect w id c none events m = handle_enrollment w id c events m
reconnect w id c (some addr) events m = (
  with_peer addr (reconnected c) (close_taken (object_connection (get addr m.objects)) m),
  ok (some addr),
)

-- `events` is what the peer sends on control streams while it is unknown.
unfoldable pub handle_connection :
    World → ℕ → ℕ → List Incoming → PeerManager → PeerManager × Result (Unit {0})
unfolding reconnect greet
handle_connection w id c events m = greet w (reconnect w id c (get id m.peers) events m)

abbrev pub dialled_on : ℕ → Peer → Peer
dialled_on c p = record p { connection = some c }

token_of : Option Peer → Option Text
token_of none = none
token_of (some p) = p.enroll_token

-- The task of a peer dialled it again: the token is presented once more, and then the ports.
unfoldable pub redialled : World → ℕ → ℕ → PeerManager → PeerManager
unfolding present token_of
redialled w addr c m =
    send_exposed_ports_to_peer w addr
      (present w c (token_of (get addr m.objects)) (with_peer addr (dialled_on c) m))
