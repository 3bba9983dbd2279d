-- ===== src/Daemon/Run/Tests.antt =====
-- daemon.rs, samples for startup: a first start that exposes a port to one peer.
use ig.Base.{none, some, [], ◌∷◌}
use ig.Base.Text.{text}
use ig.Failure.{ok, err, anyhow}
use ig.Backend.{tcp}
use ig.Service.{v4}
use ig.Disk.{success}
use ig.Daemon.Key.Tests.{sevens}
use ig.Daemon.Socket.{dead}
use ig.Daemon.Socket.Tests.{sockets, honest}
use ig.Daemon.Commands.Tests.{host}
use ig.Daemon.Run.{Boot, Options, run}
use ig.Daemon.Run.Started.{run-Started, Ended}

abbrev pub boot : Boot
boot = record {
  loader = record {
    read_to_string = λ path. ok (text "one");
    parse_services = λ s.
        ok (record { services = record { port = 90; backend = tcp (text "127.0.0.1:90") } ∷ [] });
    parse_routes = λ s. err (anyhow []);
  };
  sockets = sockets 7;
  xdg_state_home = none;
  home = none;
  generated = sevens;
  key_answers = success;
  public = λ key. 60;
  endpoint = ok tt;
  state_answers = success;
  pin_answers = success;
}

abbrev pub options : Options
options = record {
  host = v4 (text "127.0.0.1");
  peers = (70 ∷ []) ∷ [];
  ports = 80 ∷ [];
  key_path = some (text "/k/key");
  enroll = none;
  binds = (443, 8443) ∷ [];
  service_configs = text "s.toml" ∷ [];
}

run-Started_example :
    let s = run host boot (text "ig.sock") options dead [] in
    Ended host boot options dead [] s.socket s.daemon
run-Started_example = run-Started host boot (text "ig.sock") options dead [] (honest 7)
