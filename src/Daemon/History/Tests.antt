-- ===== src/Daemon/History/Tests.antt =====
-- daemon.rs, samples of a history: a token is minted, a port is exposed, and an unknown peer enrolls.
use ig.Base.{false, none, List, [], ◌∷◌}
use ig.Base.Text.{text}
use ig.Service
use ig.Service.{v4}
use ig.Service.Registry.{new-IsValid}
use ig.Protocol.{Request}
use ig.Peer.{enroll}
use ig.Peer.Announce.{message}
use ig.Peer.History
use ig.Peer.History.{new_manager}
use ig.Peer.Roster.Sharing.{Sound}
use ig.Daemon.{Host}
use ig.Daemon.Commands.Tests.{host}
use ig.Daemon.History.{Event, requested, met, run, run-Sound}

abbrev minting : Host
minting = record host { random = 10 ∷ [] }

abbrev events : List (Host × Event)
events =
    (minting, requested (Request.grant_token (text "laptop")))
    ∷ (host, met (History.connects 55 1 (message (enroll (text "0a")) ∷ [])))
    ∷ (host, requested (Request.expose 22 [] none false))
    ∷ (host, requested (Request.unexpose 22 none false))
    ∷ []

run-Sound_example :
    Sound
      (run events (record {
        me = 60;
        store = text "key.state.json";
        manager = new_manager (Service.new (v4 (text "127.0.0.1"))) (text "pins") [];
      })).manager
run-Sound_example =
    run-Sound 60 (text "key.state.json") (Service.new (v4 (text "127.0.0.1"))) (text "pins") []
      events (new-IsValid (v4 (text "127.0.0.1")))
