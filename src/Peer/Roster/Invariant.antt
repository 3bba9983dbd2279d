-- ===== src/Peer/Roster/Invariant.antt =====
-- peer.rs: the operations on the known peers, and the soundness of the manager.
use ig.Base.{ℕ, refl, true, false, Option, none, some, List, Bool-cases, inl, inr}
use ig.Base.Map.{get, contains_key}
use ig.Base.Text.{Text}
use ig.Failure.{Result, ok, err}
use ig.Enroll.Claims.{claim-IsValid}
use ig.Peer.{PeerManager, World, new_peer, close}
use ig.Peer.Binding.{close_taken, object_connection}
use ig.Peer.Announce.{Incoming}
use ig.Peer.Outgoing.Sent.{send_exposed-OnlySent}
use ig.Peer.Roster.{
  add_peer, add_key, dialled, present, add_pinned, pin_key, pin_peer, persist_pin, pin_on_disk,
  remove_peer, remove_key, handle_connection, handle_enrollment, claim_token, claimed, enrolled,
  apply_early, reconnect, reconnected, greet, presented, early_collides, redialled, dialled_on,
  token_of,
}
use ig.Peer.Roster.Sharing.{
  Sound, touch-Sound, evict-Sound, update_peer_ports-Sound, admit-Sound, same-Sound, sent-Sound,
  present-Sound,
}

dialled-Sound :
    (w : World) (id : ℕ) (token : Option Text) (o : Option ℕ) (m : PeerManager)
    → Sound m
    → Sound (dialled w id token o m).0
unfolding dialled
dialled-Sound w id token none m s = s
dialled-Sound w id token (some c) m s =
    admit-Sound (new_peer id none true token (some c)) (present w c token m)
      (unfold new_peer in refl) (present-Sound w c token m s)

add_key-Sound :
    (w : World) (token : Option Text) (ticket : Text) (o : Option ℕ) (m : PeerManager)
    → Sound m
    → Sound (add_key w token ticket o m).0
unfolding add_key
add_key-Sound w token ticket none m s = s
add_key-Sound w token ticket (some id) m s = elim (Bool-cases (contains_key id m.peers)) [
  | inl e ↦ rw e s
  | inr e ↦ rw e (dialled-Sound w id token (w.dial id) m s)
]

pub add_peer-Sound :
    (w : World) (ticket : Text) (token : Option Text) (m : PeerManager)
    → Sound m
    → Sound (add_peer w ticket token m).0
unfolding add_peer
add_peer-Sound w ticket token m s = add_key-Sound w token ticket (w.parse ticket) m s

pin_key-Sound :
    (w : World) (key label : Text) (o : Option ℕ) (m : PeerManager)
    → Sound m
    → Sound (pin_key w key label o m).0
unfolding pin_key
pin_key-Sound w key label none m s = s
pin_key-Sound w key label (some id) m s = elim (Bool-cases (contains_key id m.peers)) [
  | inl e ↦ rw e s
  | inr e ↦
      rw e (admit-Sound (new_peer id (some label) false none none) m (unfold new_peer in refl) s)
]

pub add_pinned-Sound :
    (w : World) (key label : Text) (m : PeerManager) → Sound m → Sound (add_pinned w key label m).0
unfolding add_pinned
add_pinned-Sound w key label m s = pin_key-Sound w key label (w.parse key) m s

persist_pin-Sound :
    (w : World) (key label : Text) (r : PeerManager × Result (Unit {0}))
    → Sound r.0
    → Sound (persist_pin w key label r).0
unfolding persist_pin
persist_pin-Sound w key label (m, err e) s = s
persist_pin-Sound w key label (m, ok _) s = same-Sound m _ refl refl refl refl refl refl s

pub pin_peer-Sound :
    (w : World) (key label : Text) (m : PeerManager) → Sound m → Sound (pin_peer w key label m).0
unfolding pin_peer add_pinned
pin_peer-Sound w key label m s =
    persist_pin-Sound w key label (pin_key w key label (w.parse key) m)
      (pin_key-Sound w key label (w.parse key) m s)

remove_key-Sound :
    (w : World) (ticket : Text) (o : Option ℕ) (m : PeerManager)
    → Sound m
    → Sound (remove_key w ticket o m).0
unfolding remove_key
remove_key-Sound w ticket none m s = s
remove_key-Sound w ticket (some id) m s = elim (Bool-cases (contains_key id m.peers)) [
  | inl e ↦ rw e (evict-Sound w id m s)
  | inr e ↦ rw e s
]

pub remove_peer-Sound :
    (w : World) (ticket : Text) (m : PeerManager) → Sound m → Sound (remove_peer w ticket m).0
unfolding remove_peer
remove_peer-Sound w ticket m s = remove_key-Sound w ticket (w.parse ticket) m s

close-Sound : (c : ℕ) (m : PeerManager) → Sound m → Sound (close c m)
close-Sound c m s = same-Sound m _ refl refl refl refl refl refl s

apply_early-Sound :
    (w : World) (addr : ℕ) (early : Option (List ℕ)) (m : PeerManager)
    → Sound m
    → Sound (apply_early w addr early m)
unfolding apply_early
apply_early-Sound w addr none m s = s
apply_early-Sound w addr (some ports) m s = update_peer_ports-Sound w addr ports m s

enrolled-Sound :
    (w : World) (id c : ℕ) (label : Text) (early : Option (List ℕ))
    (r : PeerManager × Result (Unit {0}))
    → Sound r.0
    → Sound (enrolled w id c label early r).0
unfolding enrolled
enrolled-Sound w id c label early (m, err e) s = s
enrolled-Sound w id c label early (m, ok _) s =
    apply_early-Sound w m.next early _
      (admit-Sound (new_peer id (some label) false none (some c)) m (unfold new_peer in refl) s)

claimed-Sound :
    (w : World) (id c : ℕ) (early : Option (List ℕ)) (label : Option Text) (m : PeerManager)
    → Sound m
    → Sound (claimed w id c early label m).0
unfolding claimed
claimed-Sound w id c early none m s = close-Sound c m s
claimed-Sound w id c early (some label) m s = elim (Bool-cases (early_collides w id early m)) [
  | inl e ↦ rw e (close-Sound c m s)
  | inr e ↦ rw e (
      enrolled-Sound w id c label early (pin_on_disk w (w.key_text id) label m)
        (same-Sound m _ refl refl refl refl refl refl s))
]

claim_token-Sound :
    (w : World) (id c : ℕ) (shown : Option Text × Option (List ℕ)) (m : PeerManager)
    → Sound m
    → Sound (claim_token w id c shown m).0
unfolding claim_token
claim_token-Sound w id c (none, early) m s = close-Sound c m s
claim_token-Sound w id c (some token, early) m s = claimed-Sound w id c early _ _ (record {
  table = record { one_entry = s.table.one_entry; points = s.table.points; fresh = s.table.fresh };
  grants = s.grants;
  services = s.services;
  tokens = claim-IsValid m.tokens token w.now s.tokens;
})

close_taken-Sound : (o : Option ℕ) (m : PeerManager) → Sound m → Sound (close_taken o m)
unfolding close_taken
close_taken-Sound none m s = s
close_taken-Sound (some c) m s = close-Sound c m s

reconnect-Sound :
    (w : World) (id c : ℕ) (o : Option ℕ) (events : List Incoming) (m : PeerManager)
    → Sound m
    → Sound (reconnect w id c o events m).0
unfolding reconnect handle_enrollment
reconnect-Sound w id c none events m s = claim_token-Sound w id c (presented events none) m s
reconnect-Sound w id c (some addr) events m s =
    touch-Sound addr (reconnected c) _ (λ p. (refl, refl))
      (close_taken-Sound (object_connection (get addr m.objects)) m s)

greet-Sound : (w : World) (r : PeerManager × Result (Option ℕ)) → Sound r.0 → Sound (greet w r).0
unfolding greet
greet-Sound w (m, err e) s = s
greet-Sound w (m, ok none) s = s
greet-Sound w (m, ok (some addr)) s = sent-Sound m _ (send_exposed-OnlySent w addr m) s

pub handle_connection-Sound :
    (w : World) (id c : ℕ) (events : List Incoming) (m : PeerManager)
    → Sound m
    → Sound (handle_connection w id c events m).0
unfolding handle_connection
handle_connection-Sound w id c events m s =
    greet-Sound w _ (reconnect-Sound w id c (get id m.peers) events m s)

pub redialled-Sound :
    (w : World) (addr c : ℕ) (m : PeerManager) → Sound m → Sound (redialled w addr c m)
unfolding redialled
redialled-Sound w addr c m s = sent-Sound _ _ (send_exposed-OnlySent w addr _) (
    present-Sound w c (token_of (get addr m.objects)) _
      (touch-Sound addr (dialled_on c) m (λ p. (refl, refl)) s))
