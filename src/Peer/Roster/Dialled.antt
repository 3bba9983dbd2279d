-- ===== src/Peer/Roster/Dialled.antt =====
-- peer.rs, `add_peer`: what it leaves alone.
use ig.Base.{ℕ, refl, Option, none, some, Bool-cases, inl, inr}
use ig.Base.Map.{contains_key}
use ig.Base.Text.{Text}
use ig.Peer.{PeerManager, World, admit, enroll}
use ig.Peer.Outgoing.Sent.{OnlySent, send_message-OnlySent}
use ig.Peer.Roster.{add_peer, add_key, dialled, present}
use ig.Peer.Roster.Pinning.{ToldAlike}

pub sent-ToldAlike : (m n : PeerManager) → OnlySent m n → ToldAlike n m
sent-ToldAlike m n (sent, e) = rw e (refl, refl, refl)

present-ToldAlike :
    (w : World) (c : ℕ) (token : Option Text) (m : PeerManager) → ToldAlike (present w c token m) m
unfolding present
present-ToldAlike w c none m = (refl, refl, refl)
present-ToldAlike w c (some token) m =
    sent-ToldAlike m _ (send_message-OnlySent w c (enroll token) m)

dialled-ToldAlike :
    (w : World) (id : ℕ) (token : Option Text) (o : Option ℕ) (m : PeerManager)
    → ToldAlike (dialled w id token o m).0 m
unfolding dialled admit
dialled-ToldAlike w id token none m = (refl, refl, refl)
dialled-ToldAlike w id token (some c) m = present-ToldAlike w c token m

add_key-ToldAlike :
    (w : World) (token : Option Text) (ticket : Text) (o : Option ℕ) (m : PeerManager)
    → ToldAlike (add_key w token ticket o m).0 m
unfolding add_key
add_key-ToldAlike w token ticket none m = (refl, refl, refl)
add_key-ToldAlike w token ticket (some id) m = elim (Bool-cases (contains_key id m.peers)) [
  | inl e ↦ rw e (refl, refl, refl)
  | inr e ↦ rw e (dialled-ToldAlike w id token (w.dial id) m)
]

pub add_peer-ToldAlike :
    (w : World) (ticket : Text) (token : Option Text) (m : PeerManager)
    → ToldAlike (add_peer w ticket token m).0 m
unfolding add_peer
add_peer-ToldAlike w ticket token m = add_key-ToldAlike w token ticket (w.parse ticket) m
