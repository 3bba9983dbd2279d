-- ===== src/Peer/Connection/Tests.antt =====
-- peer.rs, samples of a connection: the first peer announces a port and asks for one that it was not
-- granted.
use ig.Base.{◌≡◌, refl, false, List, [], ◌∷◌, All}
use ig.Base.Map.{get, insert}
use ig.Grants.{add, allows}
use ig.Peer.{exposed_ports}
use ig.Peer.Announce.{message}
use ig.Peer.Sample.{world, manager, manager-Sound}
use ig.Peer.Connection.{Arrival, uni, bi, run_connection}
use ig.Peer.Connection.Denied.{Denied, Refused, run_connection-Refused}

abbrev arrivals : List Arrival
arrivals = uni (message (exposed_ports (443 ∷ []))) ∷ bi (0 ∷ 80 ∷ 71 ∷ []) ∷ bi (0 ∷ 22 ∷ []) ∷ []

not_granted : allows manager.grants 80 70 ≡ false
unfolding allows add get insert
not_granted = refl

denied : Denied 0 70 80 manager
unfolding get
denied = record { sound = manager-Sound; owner = refl; refused = not_granted }

run_connection-Refused_example : All (Refused 80) (run_connection world 0 arrivals manager).tunnels
run_connection-Refused_example = run_connection-Refused world 0 70 80 arrivals manager denied
