-- ===== src/Peer/Outgoing/Sent.antt =====
-- peer.rs, `send_exposed_ports_to_peer` and `broadcast_grants`: what they touch.
use ig.Base.{ℕ, ◌≡◌, refl, Option, none, some, List, [], ◌∷◌, Bool-cases, inl, inr, ap, ◌∙◌}
use ig.Peer.{PeerManager, PeerMessage, World}
use ig.Peer.Binding.{addresses}
use ig.Peer.Outgoing.{
  send_message, send_on, send_exposed_ports_to_peer, send_to_each, broadcast_grants,
}

-- `n` is `m` but for the record of messages.
abbrev pub OnlySent : PeerManager → PeerManager → Type 0
OnlySent m n = (sent : List (ℕ × PeerMessage)) × (n ≡ record m { sent = sent })

pub send_message-OnlySent :
    (w : World) (c : ℕ) (msg : PeerMessage) (m : PeerManager) → OnlySent m (send_message w c msg m)
unfolding send_message
send_message-OnlySent w c msg m = elim (Bool-cases (w.delivers c)) [
  | inl e ↦ ((c, msg) ∷ m.sent, rw e)
  | inr e ↦ (m.sent, rw e)
]

send_on-OnlySent :
    (w : World) (o : Option ℕ) (msg : PeerMessage) (m : PeerManager)
    → OnlySent m (send_on w o msg m)
unfolding send_on
send_on-OnlySent w none msg m = (m.sent, refl)
send_on-OnlySent w (some c) msg m = unfold send_message in send_message-OnlySent w c msg m

pub send_exposed-OnlySent :
    (w : World) (addr : ℕ) (m : PeerManager) → OnlySent m (send_exposed_ports_to_peer w addr m)
unfolding send_exposed_ports_to_peer
send_exposed-OnlySent w addr m = send_on-OnlySent w _ _ m

send_to_each-OnlySent :
    (w : World) (addrs : List ℕ) (m : PeerManager) → OnlySent m (send_to_each w addrs m)
unfolding send_to_each
send_to_each-OnlySent w [] m = (m.sent, refl)
send_to_each-OnlySent w (addr ∷ addrs) m =
    let (one, e) = send_exposed-OnlySent w addr m in
    let (all, f) = send_to_each-OnlySent w addrs (send_exposed_ports_to_peer w addr m) in
    (all, f ∙ ap (λ (n : PeerManager). record n { sent = all }) e)

pub broadcast_grants-OnlySent : (w : World) (m : PeerManager) → OnlySent m (broadcast_grants w m)
unfolding broadcast_grants
broadcast_grants-OnlySent w m = send_to_each-OnlySent w (addresses m.peers) m
