-- ===== src/Daemon/Commands/Tests.antt =====
-- Requests to a sample daemon that go through.
use ig.Base.{ℕ, ◌≡◌, refl, true, false, Option, none, some, List, [], ◌∷◌, ap}
use ig.Base.Text.{text}
use ig.Failure.{ok}
use ig.Backend.{BackendSpec, validate}
use ig.Disk.{success}
use ig.Disk.Sample.{state_codec}
use ig.Disk.Atomic.{write_json-success}
use ig.State
use ig.Peer.Sample.{world, manager}
use ig.Protocol.{Request}
use ig.Daemon.{Daemon, Host, persist, parse_key}
use ig.Daemon.Commands.{handle_request, grantees, parse_keys, valid_backend, parse_optional}
use ig.Daemon.Commands.DryRun.{Saves, verdict, dry_run_harmless, dry_run_verdict}
use ig.Daemon.Commands.Exposure.{Exposed, Revoked, expose-done, unexpose-done}
use ig.Daemon.Commands.Naming.{Named, NamesOne}
use ig.Peer.Sample.{manager-Sound}
use ig.Daemon.Commands.Divergence.{remove_peer-diverges}
use ig.Failure.{internal, exit_code}
use ig.Base.Map.{get, contains_key}
use ig.Daemon.Commands.Success.{WasDone, expose-WasDone, unexpose-WasDone}

abbrev pub host : Host
host = record { world = world; state_codec = state_codec; state_answers = success; random = [] }

abbrev pub daemon : Daemon
daemon = record { me = 60; store = text "key.state.json"; manager = manager }

abbrev web : BackendSpec
web = BackendSpec.tcp (b'w' ∷ b'e' ∷ b'b' ∷ [])

dry_run_harmless_example :
    (handle_request host (Request.expose 22 ((90 ∷ []) ∷ []) none true) daemon).0 ≡ daemon
dry_run_harmless_example =
    dry_run_harmless host (Request.expose 22 ((90 ∷ []) ∷ []) none true) daemon refl

host-Saves : Saves host
unfolding persist State.save
host-Saves d = write_json-success d.store 7 _

dry_run_verdict_example :
    verdict (handle_request host (Request.expose 22 ((90 ∷ []) ∷ []) none true) daemon).1
    ≡ verdict (handle_request host (Request.expose 22 ((90 ∷ []) ∷ []) none false) daemon).1
dry_run_verdict_example = (dry_run_verdict host daemon host-Saves).0 22 ((90 ∷ []) ∷ []) none

named : grantees host.world ((90 ∷ []) ∷ []) daemon ≡ ok (90 ∷ [])
unfolding grantees parse_keys parse_key
named = refl

web-valid : valid_backend (some web) 22 ≡ ok tt
unfolding valid_backend validate
web-valid = refl

exposed : WasDone (handle_request host (Request.expose 22 ((90 ∷ []) ∷ []) (some web) false) daemon)
exposed =
    expose-WasDone host 22 ((90 ∷ []) ∷ []) (90 ∷ []) (some web) daemon host-Saves named web-valid

expose-done_example :
    (ids : List ℕ) × Named host.world daemon ((90 ∷ []) ∷ []) ids
    × Exposed host success 22 ids
        (some web)
        daemon
        (handle_request host (Request.expose 22 ((90 ∷ []) ∷ []) (some web) false) daemon).0
expose-done_example =
    expose-done host success 22 ((90 ∷ []) ∷ []) (some web) daemon
      (handle_request host (Request.expose 22 ((90 ∷ []) ∷ []) (some web) false) daemon).0 exposed.0
      refl manager-Sound
      (ap
        (λ r.
          ((handle_request host (Request.expose 22 ((90 ∷ []) ∷ []) (some web) false) daemon).0, r))
        exposed.1)

all_keys : parse_optional host.world none ≡ ok none
unfolding parse_optional
all_keys = refl

revoked : WasDone (handle_request host (Request.unexpose 22 none false) daemon)
revoked = unexpose-WasDone host 22 none none daemon host-Saves all_keys

unexpose-done_example :
    (id : Option ℕ) × NamesOne host.world none id
    × Revoked host success 22 id daemon
        (handle_request host (Request.unexpose 22 none false) daemon).0
unexpose-done_example =
    unexpose-done host success 22 none daemon
      (handle_request host (Request.unexpose 22 none false) daemon).0 revoked.0 refl manager-Sound
      (ap (λ r. ((handle_request host (Request.unexpose 22 none false) daemon).0, r)) revoked.1)

unknown : contains_key 50 daemon.manager.peers ≡ false
unfolding get
unknown = refl

known : contains_key 70 daemon.manager.peers ≡ true
unfolding get
known = refl

remove_peer-diverges_example :
    (verdict (handle_request host (Request.remove_peer (50 ∷ []) true) daemon).1 ≡ none)
    × (verdict (handle_request host (Request.remove_peer (50 ∷ []) false) daemon).1 ≡ some internal)
    × (exit_code internal ≡ 1)
remove_peer-diverges_example = remove_peer-diverges host (50 ∷ []) 50 daemon refl unknown
