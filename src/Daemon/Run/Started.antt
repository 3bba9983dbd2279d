-- ===== src/Daemon/Run/Started.antt =====
-- daemon.rs, `run`: the daemon that startup ends with, or the error.
use ig.Base.{ℕ, ◌≡◌, refl, List, sym, subst, none, ap, ◌∙◌}
use ig.Base.Text.{Text}
use ig.Failure.{Result, ok, err, ok-injective}
use ig.Service
use ig.Service.{Services}
use ig.Service.Registry.{new-IsValid}
use ig.Disk.{Disk}
use ig.Pins
use ig.Pins.{Pin, pins_path}
use ig.State
use ig.State.{State}
use ig.Daemon.{Daemon, Host}
use ig.Daemon.Startup.{new-CameUp, CameUp, Fresh}
use ig.Daemon.Key.{load_or_create_key}
use ig.Daemon.Socket.{Endpoint, live}
use ig.Daemon.Socket.Claimed.{Honest, IsLive, Claim, bind_control_socket-Claim}
use ig.Daemon.Run.{
  Options, Boot, Startup, run, with_services, with_socket, with_state, with_key, with_endpoint,
  built, overlaid, gave_up, restore_if_any, key_path_of, apply_configs,
}
use ig.Base.Map.{get}
use ig.Service.Files.{ServiceEntry}
use ig.Service.Registry.{declared}
use ig.Daemon.Run.Configured.{
  apply_configs-IsValid, apply_configs-declared, FilesSay, then_from, entry_for,
}
use ig.Daemon.Run.Told.{Told, told}

-- What a run that started a daemon had to go by, and the daemon.
pub record Started (h : Host) (b : Boot) (o : Options) (disk : Disk) (d : Daemon) : Type 0 where
  pub declarations : List ServiceEntry
  pub state : State
  pub key : List ℕ
  pub read : FilesSay b.loader o.service_configs declarations
  pub loaded :
      State.load h.state_codec (State.store_path (key_path_of b o)) b.state_answers disk ≡ ok state
  pub keyed : (load_or_create_key (key_path_of b o) b.generated b.key_answers disk).1 ≡ ok key
  pub told : Told h.world o declarations state d

-- How startup can end: with a daemon that listens on the control socket, which nobody did before, or
-- with an error and, if somebody listened there, with the socket as it was.
abbrev pub Ended : Host → Boot → Options → Endpoint → Disk → Endpoint → Result Daemon → Type 0
Ended h b o socket disk socket' (err e) = IsLive socket → socket' ≡ socket
Ended h b o socket disk socket' (ok d) =
    (socket' ≡ live b.sockets.pid 0o600) × (¬ IsLive socket) × Started h b o disk d

-- The end of a run that holds the socket.
abbrev Held : Host → Boot → Options → Endpoint → Disk → Startup → Type 0
Held h b o socket disk s = Ended h b o socket disk s.socket s.daemon

new-declared : (host : Service.IpAddr) (q : ℕ) → declared (Service.new host) q ≡ none
unfolding get
new-declared host q = refl

overlaid-Held :
    (h : Host) (b : Boot) (o : Options) (socket socket' : Endpoint) (disk : Disk) (given : Services)
    (state : State) (key : List ℕ) (pins : List Pin) (path : Text) (fresh : Daemon)
    (r : Daemon × Result (Unit {0}))
    → ¬ IsLive socket
    → socket' ≡ live b.sockets.pid 0o600
    → apply_configs b.loader o.service_configs (Service.new o.host) ≡ ok given
    → State.load h.state_codec (State.store_path (key_path_of b o)) b.state_answers disk ≡ ok state
    → (load_or_create_key (key_path_of b o) b.generated b.key_answers disk).1 ≡ ok key
    → Fresh h.world path given pins fresh
    → restore_if_any h.world state fresh ≡ r
    → Held h b o socket disk (overlaid h.world o socket' r)
unfolding overlaid gave_up
overlaid-Held h b o socket socket' disk given state key pins path fresh (d, err e) free at c l k f
      r =
    λ lives. absurd (free lives)
overlaid-Held h b o socket socket' disk given state key pins path fresh (d, ok _) free at c l k f
      r =
    let (all, say, same_entries) =
      apply_configs-declared b.loader o.service_configs (Service.new o.host) given c in
    (
      at,
      free,
      record {
        declarations = all;
        state = state;
        key = key;
        read = say;
        loaded = l;
        keyed = k;
        told =
            told h.world o path given pins state fresh d f r all
              λ q. same_entries q ∙ ap (λ x. then_from x (entry_for q all)) (new-declared o.host q);
      },
    )

built-Held :
    (h : Host) (b : Boot) (o : Options) (socket socket' : Endpoint) (disk disk' : Disk)
    (given : Services) (state : State) (key : List ℕ) (path : Text) (pins : Result (List Pin))
    (r : Result Daemon)
    → ¬ IsLive socket
    → socket' ≡ live b.sockets.pid 0o600
    → apply_configs b.loader o.service_configs (Service.new o.host) ≡ ok given
    → State.load h.state_codec (State.store_path (key_path_of b o)) b.state_answers disk ≡ ok state
    → (load_or_create_key (key_path_of b o) b.generated b.key_answers disk).1 ≡ ok key
    → CameUp h.world path given pins r
    → Held h b o socket disk (built h.world o state socket' disk' r)
unfolding built gave_up
built-Held h b o socket socket' disk disk' given state key path pins (err e) free at c l k up =
    λ lives. absurd (free lives)
built-Held h b o socket socket' disk disk' given state key path (err x) (ok d) free at c l k up = cc
built-Held h b o socket socket' disk disk' given state key path (ok pins) (ok d) free at c l k up =
    let (e, same, f) = up in
    overlaid-Held h b o socket socket' disk given state key pins path d _ free at c l k
      (subst (Fresh h.world path given pins) (sym (ok-injective d e same)) f) refl

with_endpoint-Held :
    (h : Host) (b : Boot) (o : Options) (socket socket' : Endpoint) (disk disk' : Disk)
    (given : Services) (state : State) (key : List ℕ) (r : Result (Unit {0}))
    → ¬ IsLive socket
    → socket' ≡ live b.sockets.pid 0o600
    → apply_configs b.loader o.service_configs (Service.new o.host) ≡ ok given
    → State.load h.state_codec (State.store_path (key_path_of b o)) b.state_answers disk ≡ ok state
    → (load_or_create_key (key_path_of b o) b.generated b.key_answers disk).1 ≡ ok key
    → Held h b o socket disk
        (with_endpoint h.world b o (key_path_of b o) given state socket' disk' key r)
unfolding with_endpoint gave_up
with_endpoint-Held h b o socket socket' disk disk' given state key (err e) free at c l k =
    λ lives. absurd (free lives)
with_endpoint-Held h b o socket socket' disk disk' given state key (ok _) free at c l k =
    built-Held h b o socket socket' disk disk' given state key (key_path_of b o)
      (Pins.load h.world.pin_codec (pins_path (key_path_of b o)) b.pin_answers disk') _ free at c l
      k
      (new-CameUp h.world (b.public key) (key_path_of b o) given b.pin_answers disk' (
        apply_configs-IsValid b.loader o.service_configs (Service.new o.host) given
          (new-IsValid o.host) c))

with_key-Held :
    (h : Host) (b : Boot) (o : Options) (socket socket' : Endpoint) (disk disk' : Disk)
    (given : Services) (state : State) (r : Result (List ℕ))
    → ¬ IsLive socket
    → socket' ≡ live b.sockets.pid 0o600
    → apply_configs b.loader o.service_configs (Service.new o.host) ≡ ok given
    → State.load h.state_codec (State.store_path (key_path_of b o)) b.state_answers disk ≡ ok state
    → (load_or_create_key (key_path_of b o) b.generated b.key_answers disk).1 ≡ r
    → Held h b o socket disk (with_key h.world b o (key_path_of b o) given state socket' disk' r)
unfolding with_key gave_up
with_key-Held h b o socket socket' disk disk' given state (err e) free at c l k =
    λ lives. absurd (free lives)
with_key-Held h b o socket socket' disk disk' given state (ok key) free at c l k =
    with_endpoint-Held h b o socket socket' disk disk' given state key b.endpoint free at c l k

with_state-Held :
    (h : Host) (b : Boot) (o : Options) (socket socket' : Endpoint) (disk : Disk) (given : Services)
    (r : Result State)
    → ¬ IsLive socket
    → socket' ≡ live b.sockets.pid 0o600
    → apply_configs b.loader o.service_configs (Service.new o.host) ≡ ok given
    → State.load h.state_codec (State.store_path (key_path_of b o)) b.state_answers disk ≡ r
    → Held h b o socket disk (with_state h.world b o (key_path_of b o) given socket' disk r)
unfolding with_state gave_up
with_state-Held h b o socket socket' disk given (err e) free at c l = λ lives. absurd (free lives)
with_state-Held h b o socket socket' disk given (ok state) free at c l =
    with_key-Held h b o socket socket' disk _ given state _ free at c l refl

with_socket-Held :
    (h : Host) (b : Boot) (o : Options) (socket : Endpoint) (disk : Disk) (given : Services)
    (r : Endpoint × Result (Unit {0}))
    → Claim b.sockets socket r
    → apply_configs b.loader o.service_configs (Service.new o.host) ≡ ok given
    → Held h b o socket disk (with_socket h b o given disk r)
unfolding with_socket
with_socket-Held h b o socket disk given (socket', err e) (kept, busy) c = kept
with_socket-Held h b o socket disk given (socket', ok _) (at, free) c =
    with_state-Held h b o socket socket' disk given _ free at c refl

with_services-Held :
    (h : Host) (b : Boot) (path : Text) (o : Options) (socket : Endpoint) (disk : Disk)
    (r : Result Services)
    → Honest b.sockets
    → apply_configs b.loader o.service_configs (Service.new o.host) ≡ r
    → Held h b o socket disk (with_services h b path o socket disk r)
unfolding with_services
with_services-Held h b path o socket disk (err e) honest c = λ lives. refl
with_services-Held h b path o socket disk (ok given) honest c =
    with_socket-Held h b o socket disk given _
      (bind_control_socket-Claim path b.sockets socket honest) c

-- If startup ends with an error, a control socket that somebody listened on is as it was. If it ends
-- with a daemon, nobody listened there before and this process does now, with the mode 0600; every
-- --service file was read and parsed and has an entry; the saved state and the key were read; the
-- manager is sound; the grants are those that were saved and, for each ticket on the command line
-- that parses, to its peer, each port that was listed and each port with a declared service; a port
-- is declared by the first entry for it in all the --service files, in their order, and otherwise as
-- it was saved; and a remap is the last one on the command line for its port, and
-- otherwise the last one saved. The system must not answer that nobody is there for a socket that
-- somebody listens on.
pub run-Started :
    (h : Host) (b : Boot) (path : Text) (o : Options) (socket : Endpoint) (disk : Disk)
    → Honest b.sockets
    → let s = run h b path o socket disk in Ended h b o socket disk s.socket s.daemon
unfolding run
run-Started h b path o socket disk honest = with_services-Held h b path o socket disk _ honest refl
