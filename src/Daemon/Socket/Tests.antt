-- ===== src/Daemon/Socket/Tests.antt =====
-- daemon.rs, samples for the control socket.
use ig.Base.{ℕ, ◌≡◌, refl, true, none}
use ig.Base.Text.{text}
use ig.Failure.{ok}
use ig.Daemon.Socket.{
  Endpoint, absent, dead, live, Connected, accepted, gone, Sockets, check, take_over,
  bind_control_socket,
}
use ig.Daemon.Socket.Claimed.{
  Honest, Claim, bind_control_socket-Claim, bind_control_socket-diverges, Willing,
}

abbrev connects : Endpoint → Connected
connects absent = gone
connects dead = gone
connects (live pid mode) = accepted

abbrev pub sockets : ℕ → Sockets
sockets pid = record {
  pid = pid;
  connect = connects;
  removes = true;
  bind = none;
  default_mode = 0o755;
  set_permissions = none;
}

pub honest : (me : ℕ) → Honest (sockets me)
honest me pid mode h = cc

willing : (me : ℕ) → Willing (sockets me)
willing me = record { removes = refl; binds = refl; sets = refl }

bind_control_socket-Claim_example :
    Claim
      (sockets 7)
      (live 5 0o600)
      (bind_control_socket (text "ig.sock") (sockets 7) (live 5 0o600))
bind_control_socket-Claim_example =
    bind_control_socket-Claim (text "ig.sock") (sockets 7) (live 5 0o600) (honest 7)

bind_control_socket-diverges_example :
    let first = take_over (text "ig.sock") (sockets 7) dead in
    let second = take_over (text "ig.sock") (sockets 8) first.0 in
    (check (text "ig.sock") (sockets 7) dead ≡ ok tt)
    × (check (text "ig.sock") (sockets 8) dead ≡ ok tt)
    × (first.1 ≡ ok tt)
    × (second ≡ (live 8 0o600, ok tt))
bind_control_socket-diverges_example =
    bind_control_socket-diverges (text "ig.sock") (sockets 7) (sockets 8) dead (willing 7)
      (willing 8) refl refl
