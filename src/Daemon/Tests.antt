-- ===== src/Daemon/Tests.antt =====
-- A sample daemon is restarted.
use ig.Base.{◌≡◌, refl, []}
use ig.Base.Text.{text}
use ig.Failure.{ok}
use ig.Service
use ig.Peer.History.{new_manager}
use ig.Peer.Sample.{world, manager, manager-Sound}
use ig.Daemon.{Daemon, restore, snapshot}
use ig.Daemon.Restart.{IsFresh, SameTold, restore-snapshot}

abbrev daemon : Daemon
daemon = record { me = 60; store = text "key.state.json"; manager = manager }

abbrev restarted : Daemon
restarted = record {
  me = 60;
  store = text "key.state.json";
  manager = new_manager (Service.new (Service.v4 (text "127.0.0.1"))) (text "key.peers.json") [];
}

restarted-IsFresh : IsFresh restarted
unfolding new_manager
restarted-IsFresh = record { no_grants = refl; no_services = refl; no_binds = refl }

restore-snapshot_example :
    ((restore world (snapshot world daemon) restarted).1 ≡ ok tt)
    × SameTold daemon (restore world (snapshot world daemon) restarted).0
restore-snapshot_example =
    restore-snapshot world daemon restarted (λ id. refl) manager-Sound restarted-IsFresh
