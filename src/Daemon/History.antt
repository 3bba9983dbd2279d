-- ===== src/Daemon/History.antt =====
-- daemon.rs and peer.rs: a daemon through any sequence of control requests and of what comes from its
-- peers.
mod Tests
use ig.Base.{ℕ, ◌≡◌, refl, List, [], ◌∷◌}
use ig.Base.Text.{Text}
use ig.Service
use ig.Service.{Services}
use ig.Disk.{Disk}
use ig.Protocol.{Request}
use ig.Peer.{PeerManager}
use ig.Peer.History
use ig.Peer.History.{new_manager, new_manager-Sound, happen, happen-Sound}
use ig.Peer.Roster.Sharing.{Sound}
use ig.Daemon.{Daemon, Host, on_manager}
use ig.Daemon.Commands.{handle_request}
use ig.Daemon.Commands.Soundness.{handle_request-Sound}

-- A request over the control socket, or an event of the manager.
pub data Event : Type 0 where
  requested : Request → Event
  met : History.Event → Event

unfoldable pub on_event : Host → Event → Daemon → Daemon
on_event h (requested request) d = (handle_request h request d).0
on_event h (met e) d = on_manager (happen h.world e) d

-- Each event comes with what the surroundings answer to it.
unfoldable pub run : List (Host × Event) → Daemon → Daemon
run [] d = d
run ((h, e) ∷ events) d = run events (on_event h e d)

on_event-Sound :
    (h : Host) (e : Event) (d : Daemon) → Sound d.manager → Sound (on_event h e d).manager
unfolding on_event
on_event-Sound h (requested request) d s = handle_request-Sound h request d s
on_event-Sound h (met e) d s = happen-Sound h.world e d.manager s

run_sound :
    (events : List (Host × Event)) (d : Daemon) → Sound d.manager → Sound (run events d).manager
unfolding run
run_sound [] d s = s
run_sound ((h, e) ∷ events) d s = run_sound events (on_event h e d) (on_event-Sound h e d s)

-- Whatever requests come over the control socket, and whatever the peers, the network and the
-- operating system do in between, one at a time, a daemon that starts with no peer, grant or token
-- keeps its table and its heap in agreement: each known key leads to one object, of that key, that was
-- not removed; and the grants, services and tokens stay well formed.
pub run-Sound :
    (me : ℕ) (store : Text) (services : Services) (path : Text) (disk : Disk)
    (events : List (Host × Event))
    → Service.IsValid services
    → Sound
        (run events
          (record { me = me; store = store; manager = new_manager services path disk })).manager
run-Sound me store services path disk events v =
    run_sound events _ (new_manager-Sound services path disk v)
