-- ===== src/Daemon/Commands/Success.antt =====
-- daemon.rs, `handle_request`: when the requests to expose and to revoke a port succeed.
use ig.Base.{ℕ, ◌≡◌, refl, false, Option, none, some, List}
use ig.Base.Text.{Text}
use ig.Failure.{Result, ok, err}
use ig.Backend.{BackendSpec}
use ig.Service.Registry.{register-valid}
use ig.Protocol.{Request, Response}
use ig.Daemon.{Daemon, Host, persist}
use ig.Daemon.Commands.{
  Reply, handle_request, checked_expose, expose_port, grantees, valid_backend, parsed_unexpose,
  unexpose_port, parse_optional, registered, declare_backend, persisted, replied,
}
use ig.Daemon.Commands.DryRun.{Saves}

-- The request was done, and not as a dry run.
abbrev pub WasDone : Reply → Type 0
WasDone r = (said : Text) × (r.1 ≡ Response.done false said)

replied-WasDone :
    (detail : Text) (r : Daemon × Result (Unit {0})) → r.1 ≡ ok tt → WasDone (replied detail r)
unfolding replied
replied-WasDone detail (d, ok _) h = (detail, refl)
replied-WasDone detail (d, err e) h = cc

persisted-WasDone :
    (h : Host) (detail : Text) (d : Daemon) → Saves h → WasDone (persisted h detail d)
unfolding persisted
persisted-WasDone h detail d saves = replied-WasDone detail (persist h d) (saves d)

registered-WasDone :
    (h : Host) (detail : Text) (port : ℕ) (to : List ℕ) (backend : Option BackendSpec) (d : Daemon)
    → Saves h
    → valid_backend backend port ≡ ok tt
    → WasDone (registered h detail port to (declare_backend backend port d.manager.services) d)
unfolding registered declare_backend valid_backend
registered-WasDone h detail port to none d saves valid = persisted-WasDone h detail _ saves
registered-WasDone h detail port to (some spec) d saves valid =
    rw (register-valid d.manager.services port spec valid) (persisted-WasDone h detail _ saves)

checked_expose-WasDone :
    (h : Host) (port : ℕ) (backend : Option BackendSpec) (ids : List ℕ) (d : Daemon)
    → Saves h
    → valid_backend backend port ≡ ok tt
    → WasDone (checked_expose h port backend false (ok ids) (ok tt) d)
unfolding checked_expose
checked_expose-WasDone h port backend ids d saves valid =
    registered-WasDone h _ port ids backend d saves valid

parsed_unexpose-WasDone :
    (h : Host) (port : ℕ) (id : Option ℕ) (d : Daemon)
    → Saves h
    → WasDone (parsed_unexpose h port false (ok id) d)
unfolding parsed_unexpose
parsed_unexpose-WasDone h port id d saves = persisted-WasDone h _ _ saves

-- A request to expose is done, if its keys are keys, or it names none and some peer is known, and
-- its backend, if any, is valid.
pub expose-WasDone :
    (h : Host) (port : ℕ) (to : List Text) (ids : List ℕ) (backend : Option BackendSpec)
    (d : Daemon)
    → Saves h
    → grantees h.world to d ≡ ok ids
    → valid_backend backend port ≡ ok tt
    → WasDone (handle_request h (Request.expose port to backend false) d)
unfolding handle_request expose_port
expose-WasDone h port to ids backend d saves known valid =
    rw (known, valid) (checked_expose-WasDone h port backend ids d saves valid)

-- A request to revoke is done, if the key that it names, if any, is one.
pub unexpose-WasDone :
    (h : Host) (port : ℕ) (to : Option Text) (id : Option ℕ) (d : Daemon)
    → Saves h
    → parse_optional h.world to ≡ ok id
    → WasDone (handle_request h (Request.unexpose port to false) d)
unfolding handle_request unexpose_port
unexpose-WasDone h port to id d saves known = rw known (parsed_unexpose-WasDone h port id d saves)
