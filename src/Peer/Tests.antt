-- ===== src/Peer/Tests.antt =====
-- The sample manager through single operations, and a history of events.
use ig.Base.{◌≡◌, refl, none, some, List, [], ◌∷◌, ◌⊎◌}
use ig.Base.Map.{get}
use ig.Base.Text.{text}
use ig.Peer.Binding.{evict}
use ig.Peer.Binding.{set_bind, local_for}
use ig.Peer.Binding.Recreated.{Moved}
use ig.Peer.Binding.Moved.{set_bind-Moved}
use ig.Peer.Binding.Evicted.{evict_complete, closed_after}
use ig.Peer.Announce.{update_peer_ports}
use ig.Peer.Announce.Update.{Updated, update_peer_ports-Updated}
use ig.Peer.Announce.Settled.{Booted}
use ig.Enroll.{default, mint_with_ttl}
use ig.Peer.{Peer, PeerManager, enroll, exposed_ports}
use ig.Peer.Announce.{message, Incoming}
use ig.Base.{◌≤◌, true}
use ig.Peer.Loop
use ig.Peer.Loop.{backoff_initial, backoff_max, step, start, on_loop}
use ig.Peer.Loop.Backoff.{run-backoff}
use ig.Peer.Sample.{world, manager, first, granted-IsValid, first-Known}

first_at : get 70 manager.peers ≡ some 0
unfolding get
first_at = refl

first_there : get 0 manager.objects ≡ some first
unfolding get
first_there = refl

evict_complete_example :
    (evict world 70 manager).closed ≡ closed_after first.connection manager.closed
evict_complete_example =
    (evict_complete world 70 0 first manager granted-IsValid first_at first_there).2

update_peer_ports-Updated_example :
    let n = update_peer_ports world 0 (443 ∷ 22 ∷ []) manager in
    Booted world manager 70 (443 ∷ 22 ∷ []) n ⊎ Updated world manager 70 0 first (443 ∷ 22 ∷ []) n
update_peer_ports-Updated_example =
    update_peer_ports-Updated world manager 70 0 first (443 ∷ 22 ∷ []) first-Known

-- A token is pending, and the caller presents it.
abbrev minting : PeerManager
minting = record manager { tokens = (mint_with_ttl default (0xab ∷ []) (text "laptop") 300 900).0 }

-- It announces a port before it presents the token.
abbrev arriving : List Incoming
arriving = message (exposed_ports (443 ∷ [])) ∷ message (enroll (text "ab")) ∷ []

-- A dialled peer loses its connection and is evicted while it waits to dial.
abbrev ups_and_downs : List Loop.Event
ups_and_downs =
    Loop.evicted ∷ Loop.own (Loop.dialled none) ∷ Loop.own Loop.slept ∷ Loop.own Loop.lost ∷ []

run-backoff_example :
    (backoff_initial ≤ (Loop.run first ups_and_downs).backoff)
    × ((Loop.run first ups_and_downs).backoff ≤ backoff_max)
run-backoff_example = run-backoff first ups_and_downs

set_bind-Moved_example :
    (q : Peer) × (get 0 (set_bind world 80 (some 9090) manager).objects ≡ some q)
    × Moved world 80 9090 true first q
    × (local_for (set_bind world 80 (some 9090) manager) 80 ≡ 9090)
set_bind-Moved_example = set_bind-Moved world 80 (some 9090) manager 70 0 first first_at first_there
