-- ===== src/Daemon/Commands/DryRun.antt =====
-- daemon.rs, `handle_request`: dry runs against real runs.
use ig.Base.{ℕ, ◌≡◌, refl, Bool, true, false, Option, none, some, List, sym}
use ig.Base.Text.{Text}
use ig.Failure.{ErrorKind, Result, ok, err}
use ig.Backend.{BackendSpec}
use ig.Service.Registry.{register-valid}
use ig.Protocol.{Request, Response}
use ig.Daemon.{Daemon, Host, persist}
use ig.Daemon.Commands.{
  handle_request, parsed_add, parsed_remove, checked_expose, valid_backend, parsed_unexpose,
  parsed_pin, registered, declare_backend, persisted, replied,
}

-- Was the request made with `dry_run`?
abbrev pub is_dry : Request → Bool
is_dry (Request.add_peer ticket dry_run) = dry_run
is_dry (Request.remove_peer ticket dry_run) = dry_run
is_dry (Request.expose port to backend dry_run) = dry_run
is_dry (Request.unexpose port to dry_run) = dry_run
is_dry (Request.bind port local dry_run) = dry_run
is_dry (Request.pin key label dry_run) = dry_run
is_dry Request.list = false
is_dry Request.list_peers = false
is_dry Request.list_ports = false
is_dry Request.ticket = false
is_dry (Request.grant_token label) = false

parsed_add-dry :
    (h : Host) (ticket : Text) (r : Result ℕ) (d : Daemon) → (parsed_add h ticket true r d).0 ≡ d
unfolding parsed_add
parsed_add-dry h ticket (ok id) d = refl
parsed_add-dry h ticket (err e) d = refl

parsed_remove-dry :
    (h : Host) (ticket : Text) (r : Result ℕ) (d : Daemon) → (parsed_remove h ticket true r d).0 ≡ d
unfolding parsed_remove
parsed_remove-dry h ticket (ok id) d = refl
parsed_remove-dry h ticket (err e) d = refl

checked_expose-dry :
    (h : Host) (port : ℕ) (backend : Option BackendSpec) (to : Result (List ℕ))
    (valid : Result (Unit {0})) (d : Daemon)
    → (checked_expose h port backend true to valid d).0 ≡ d
unfolding checked_expose
checked_expose-dry h port backend (err e) valid d = refl
checked_expose-dry h port backend (ok to) (err e) d = refl
checked_expose-dry h port backend (ok to) (ok _) d = refl

parsed_unexpose-dry :
    (h : Host) (port : ℕ) (to : Result (Option ℕ)) (d : Daemon)
    → (parsed_unexpose h port true to d).0 ≡ d
unfolding parsed_unexpose
parsed_unexpose-dry h port (ok to) d = refl
parsed_unexpose-dry h port (err e) d = refl

parsed_pin-dry :
    (h : Host) (key label : Text) (r : Result ℕ) (d : Daemon)
    → (parsed_pin h key label true r d).0 ≡ d
unfolding parsed_pin
parsed_pin-dry h key label (ok id) d = refl
parsed_pin-dry h key label (err e) d = refl

-- A dry run changes nothing: not the grants, the backends, the peers or the remaps, and not the
-- disk.
pub dry_run_harmless :
    (h : Host) (r : Request) (d : Daemon) → is_dry r ≡ true → (handle_request h r d).0 ≡ d
unfolding handle_request
dry_run_harmless h (Request.add_peer ticket dry_run) d e = rw e (parsed_add-dry h ticket _ d)
dry_run_harmless h (Request.remove_peer ticket dry_run) d e = rw e (parsed_remove-dry h ticket _ d)
dry_run_harmless h (Request.expose port to backend dry_run) d e =
    rw e (checked_expose-dry h port backend _ _ d)
dry_run_harmless h (Request.unexpose port to dry_run) d e = rw e (parsed_unexpose-dry h port _ d)
dry_run_harmless h (Request.bind port local dry_run) d e = rw e
dry_run_harmless h (Request.pin key label dry_run) d e = rw e (parsed_pin-dry h key label _ d)
dry_run_harmless h Request.list d e = refl
dry_run_harmless h Request.list_peers d e = refl
dry_run_harmless h Request.list_ports d e = refl
dry_run_harmless h Request.ticket d e = refl
dry_run_harmless h (Request.grant_token label) d e = cc

-- How a response classifies the request: `none` where it was done.
abbrev pub verdict : Response → Option ErrorKind
verdict (Response.done dry detail) = none
verdict (Response.ticket t) = none
verdict (Response.list info) = none
verdict (Response.token t) = none
verdict (Response.error kind message) = some kind

-- The daemon's own file can be written.
abbrev pub Saves : Host → Type 0
Saves h = (d : Daemon) → (persist h d).1 ≡ ok tt

replied-saved :
    (detail : Text) (r : Daemon × Result (Unit {0}))
    → r.1 ≡ ok tt
    → verdict (replied detail r).1 ≡ none
unfolding replied
replied-saved detail (d, ok _) h = refl
replied-saved detail (d, err e) h = cc

persisted-verdict :
    (h : Host) (detail : Text) (d : Daemon) → Saves h → verdict (persisted h detail d).1 ≡ none
unfolding persisted
persisted-verdict h detail d saves = replied-saved detail (persist h d) (saves d)

registered-verdict :
    (h : Host) (detail : Text) (port : ℕ) (to : List ℕ) (backend : Option BackendSpec) (d : Daemon)
    → Saves h
    → valid_backend backend port ≡ ok tt
    → verdict (registered h detail port to (declare_backend backend port d.manager.services) d).1
      ≡ none
unfolding registered declare_backend valid_backend
registered-verdict h detail port to none d saves valid = persisted-verdict h detail _ saves
registered-verdict h detail port to (some spec) d saves valid =
    rw (register-valid d.manager.services port spec valid) (persisted-verdict h detail _ saves)

checked_expose-verdict :
    (h : Host) (port : ℕ) (backend : Option BackendSpec) (to : Result (List ℕ))
    (valid : Result (Unit {0})) (d : Daemon)
    → Saves h
    → valid_backend backend port ≡ valid
    → verdict (checked_expose h port backend true to valid d).1
      ≡ verdict (checked_expose h port backend false to valid d).1
unfolding checked_expose
checked_expose-verdict h port backend (err e) valid d saves v = refl
checked_expose-verdict h port backend (ok to) (err e) d saves v = refl
checked_expose-verdict h port backend (ok to) (ok _) d saves v =
    sym (registered-verdict h _ port to backend d saves v)

parsed_unexpose-verdict :
    (h : Host) (port : ℕ) (to : Result (Option ℕ)) (d : Daemon)
    → Saves h
    → verdict (parsed_unexpose h port true to d).1 ≡ verdict (parsed_unexpose h port false to d).1
unfolding parsed_unexpose
parsed_unexpose-verdict h port (ok to) d saves = sym (persisted-verdict h _ _ saves)
parsed_unexpose-verdict h port (err e) d saves = refl

-- Where the daemon's file can be written, a dry run of exposing, revoking or remapping a port is
-- refused exactly when the real run is, and with the same kind of error.
pub dry_run_verdict :
    (h : Host) (d : Daemon)
    → Saves h
    → ((port : ℕ) (to : List Text) (backend : Option BackendSpec)
        → verdict (handle_request h (Request.expose port to backend true) d).1
          ≡ verdict (handle_request h (Request.expose port to backend false) d).1)
      × ((port : ℕ) (to : Option Text)
          → verdict (handle_request h (Request.unexpose port to true) d).1
            ≡ verdict (handle_request h (Request.unexpose port to false) d).1)
      × ((port : ℕ) (local : Option ℕ)
          → verdict (handle_request h (Request.bind port local true) d).1
            ≡ verdict (handle_request h (Request.bind port local false) d).1)
unfolding handle_request
dry_run_verdict h d saves = (
  λ port to backend. checked_expose-verdict h port backend _ _ d saves refl,
  λ port to. parsed_unexpose-verdict h port _ d saves,
  λ port local. sym (persisted-verdict h _ _ saves),
)
