-- ===== src/Peer/Roster/Refusals.antt =====
-- peer.rs, `add_peer` and `remove_peer`: a peer that is known, and one that is not.
use ig.Base.{ℕ, ◌≡◌, true, false, Option, some}
use ig.Base.Map.{contains_key}
use ig.Base.Text.{Text, text}
use ig.Failure.{err, fail, anyhow, conflict}
use ig.Peer.{PeerManager, World}
use ig.Peer.Roster.{add_peer, add_key, remove_peer, remove_key}

pub add_peer-known :
    (w : World) (ticket : Text) (token : Option Text) (id : ℕ) (m : PeerManager)
    → w.parse ticket ≡ some id
    → contains_key id m.peers ≡ true
    → add_peer w ticket token m ≡ (m, err (fail conflict (text "peer already exists")))
unfolding add_peer add_key
add_peer-known w ticket token id m parsed known = rw (parsed, add_key, known)

pub remove_peer-unknown :
    (w : World) (ticket : Text) (id : ℕ) (m : PeerManager)
    → w.parse ticket ≡ some id
    → contains_key id m.peers ≡ false
    → remove_peer w ticket m ≡ (m, err (anyhow (text "peer not found")))
unfolding remove_peer remove_key
remove_peer-unknown w ticket id m parsed unknown = rw (parsed, remove_key, unknown)
