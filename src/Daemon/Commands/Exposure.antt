-- ===== src/Daemon/Commands/Exposure.antt =====
-- daemon.rs, `handle_request`: the requests to expose and to revoke a port, when they report
-- success.
use ig.Base.{
  ℕ, ◌≡◌, refl, false, not, ◌&&◌, ◌||◌, Option, none, some, List, [], ◌∷◌, arith, ◌==◌,
  if◌then◌else◌, contains, ap, ◌∙◌, subst,
}
use ig.Base.Text.{Text}
use ig.Failure.{Result, ok, err, ok-injective}
use ig.Backend.{BackendSpec}
use ig.Disk.{Answers}
use ig.Grants
use ig.Grants.{allows}
use ig.Grants.Access.{allows-add, allows-remove, revokes}
use ig.Service.{Services}
use ig.Service.Registry.{declared, register-ok, entry}
use ig.Base.Map.{get-insert}
use ig.Peer.{World}
use ig.Peer.Outgoing.Sent.{broadcast_grants-OnlySent}
use ig.Protocol.{Request, Response}
use ig.Daemon.{Daemon, Host, expose, unexpose, grant_each, retire, on_manager}
use ig.Daemon.Commands.{
  handle_request, checked_expose, parsed_unexpose, registered, declare_backend,
}
use ig.Daemon.Commands.Saved.{OnDisk, Kept-OnDisk, error_response-not_done, persisted-done}
use ig.Daemon.Commands.Soundness.{handle_request-Sound}
use ig.Daemon.Commands.Naming.{Named, NamesOne, grantees-Named, parse_optional-NamesOne}
use ig.Peer.Roster.Sharing.{Sound}
use ig.Daemon.Commands.Retired.{Retired, declared-Retired, retire-declared}

allows-grant_each :
    (port : ℕ) (to : List ℕ) (g : Grants.Grants) (q peer : ℕ)
    → allows (grant_each port to g) q peer ≡ ((port == q && contains to peer) || allows g q peer)
unfolding grant_each
allows-grant_each port [] g q peer = ground arith
allows-grant_each port (to ∷ others) g q peer = ground (
  arith,
  allows-grant_each port others (Grants.add g port to) q peer,
  allows-add g port to q peer,
)

-- `expose` grants the port to each peer in the list, and changes nothing else that is kept.
pub expose_grants :
    (w : World) (port : ℕ) (to : List ℕ) (d : Daemon)
    → let e = expose w port to d in
      ((q peer : ℕ)
        → allows e.manager.grants q peer
          ≡ ((port == q && contains to peer) || allows d.manager.grants q peer))
      × (e.manager.services ≡ d.manager.services)
      × (e.manager.binds ≡ d.manager.binds)
unfolding expose
expose_grants w port to d =
    let granted = record d.manager { grants = grant_each port to d.manager.grants } in
    let (sent, e) = broadcast_grants-OnlySent w granted in
    rw e (allows-grant_each port to d.manager.grants, refl, refl)

-- What a port is declared as, after a request that names a backend or none.
abbrev pub redeclared : Option BackendSpec → ℕ → Option BackendSpec → ℕ → Option BackendSpec
redeclared none port old q = old
redeclared (some spec) port old q = if port == q then some spec else old

declare_backend-declared :
    (backend : Option BackendSpec) (port : ℕ) (s s' : Services)
    → declare_backend backend port s ≡ ok s'
    → (q : ℕ) → declared s' q ≡ redeclared backend port (declared s q) q
unfolding declare_backend
declare_backend-declared none port s s' e q = ground (arith, ok-injective s s' e)
declare_backend-declared (some spec) port s s' e q =
    ap (λ v. declared v q) (register-ok s s' port spec e).1
    ∙ ground (arith, get-insert port q (entry port spec) s.backends)

-- What a request to expose that is done has done: the port is open to each grantee that it named,
-- its backend is declared if it named one, and the file holds all that the daemon was told.
abbrev pub Exposed : Host → Answers → ℕ → List ℕ → Option BackendSpec → Daemon → Daemon → Type 0
Exposed h later port ids backend d d' =
    ((q peer : ℕ)
      → allows d'.manager.grants q peer
        ≡ ((port == q && contains ids peer) || allows d.manager.grants q peer))
    × ((q : ℕ)
        → declared d'.manager.services q
          ≡ redeclared backend port (declared d.manager.services q) q)
    × OnDisk h later d'

registered-done :
    (h : Host) (later : Answers) (detail said : Text) (port : ℕ) (ids : List ℕ)
    (backend : Option BackendSpec) (r : Result Services) (d d' : Daemon)
    → later.reading ≡ none
    → Grants.IsValid d'.manager.grants
    → declare_backend backend port d.manager.services ≡ r
    → registered h detail port ids r d ≡ (d', Response.done false said)
    → Exposed h later port ids backend d d'
unfolding registered
registered-done h later detail said port ids backend (err x) d d' r valid n e =
    absurd (error_response-not_done x d d' said e)
registered-done h later detail said port ids backend (ok s) d d' r valid n e =
    let before = on_manager (λ m. record m { services = s }) d in
    let (grants, services, binds) = expose_grants h.world port ids before in
    let (held, (disk, same)) =
      persisted-done h later detail said (expose h.world port ids before) d' r e in
    (
      λ q peer. ap (λ x. allows x.manager.grants q peer) same ∙ grants q peer,
      λ q.
          ap (λ x. declared x.manager.services q) same
          ∙ ap (λ v. declared v q) services
          ∙ declare_backend-declared backend port d.manager.services s n q,
      Kept-OnDisk h later d' valid held,
    )

checked_expose-done :
    (h : Host) (later : Answers) (said : Text) (port : ℕ) (backend : Option BackendSpec)
    (to : Result (List ℕ)) (valid : Result (Unit {0})) (d d' : Daemon)
    → later.reading ≡ none
    → Grants.IsValid d'.manager.grants
    → checked_expose h port backend false to valid d ≡ (d', Response.done false said)
    → (ids : List ℕ) × (to ≡ ok ids) × Exposed h later port ids backend d d'
unfolding checked_expose
checked_expose-done h later said port backend (err x) checks d d' r valid e =
    absurd (error_response-not_done x d d' said e)
checked_expose-done h later said port backend (ok ids) (err x) d d' r valid e =
    absurd (error_response-not_done x d d' said e)
checked_expose-done h later said port backend (ok ids) (ok _) d d' r valid e =
    (ids, refl, registered-done h later _ said port ids backend _ d d' r valid refl e)

valid_after :
    (h : Host) (request : Request) (d d' : Daemon) (response : Response)
    → Sound d.manager
    → handle_request h request d ≡ (d', response)
    → Grants.IsValid d'.manager.grants
valid_after h request d d' response sound e =
    subst Grants.IsValid (ap (λ r. r.0.manager.grants) e)
      (handle_request-Sound h request d sound).grants

-- Where the manager is sound, a request to expose a port that is done has keys that all parse and opened the port to exactly the
-- peers that they name, or to all known peers if there is no key, on top of what was granted; it
-- declared the backend that it carries for that port and left the other declarations; and the file on
-- disk, if it can be read, holds exactly the grants, the backends and the remaps of the result.
pub expose-done :
    (h : Host) (later : Answers) (port : ℕ) (to : List Text) (backend : Option BackendSpec)
    (d d' : Daemon) (said : Text)
    → later.reading ≡ none
    → Sound d.manager
    → handle_request h (Request.expose port to backend false) d ≡ (d', Response.done false said)
    → (ids : List ℕ) × Named h.world d to ids × Exposed h later port ids backend d d'
unfolding handle_request
expose-done h later port to backend d d' said r sound e =
    let valid = valid_after h (Request.expose port to backend false) d d' _ sound e in
    let (ids, named, exposed) = checked_expose-done h later said port backend _ _ d d' r valid e in
    (ids, grantees-Named h.world to d ids named, exposed)

abbrev pub Revoked : Host → Answers → ℕ → Option ℕ → Daemon → Daemon → Type 0
Revoked h later port to d d' =
    ((q peer : ℕ)
      → allows d'.manager.grants q peer
        ≡ (not (revokes port to q peer) && allows d.manager.grants q peer))
    × Retired port d.manager.services d'
    × OnDisk h later d'

unexpose_grants :
    (w : World) (port : ℕ) (to : Option ℕ) (d : Daemon)
    → let e = unexpose w port to d in
      (e.manager.grants ≡ Grants.remove d.manager.grants port to)
      × (e.manager.services
          ≡ retire port (Grants.remove d.manager.grants port to) d.manager.services)
unfolding unexpose
unexpose_grants w port to d =
    let grants = Grants.remove d.manager.grants port to in
    let (sent, e) =
      broadcast_grants-OnlySent w
        (record d.manager { grants = grants; services = retire port grants d.manager.services }) in
    rw e (refl, refl)

parsed_unexpose-done :
    (h : Host) (later : Answers) (said : Text) (port : ℕ) (to : Result (Option ℕ)) (d d' : Daemon)
    → later.reading ≡ none
    → Grants.IsValid d'.manager.grants
    → parsed_unexpose h port false to d ≡ (d', Response.done false said)
    → (id : Option ℕ) × (to ≡ ok id) × Revoked h later port id d d'
unfolding parsed_unexpose
parsed_unexpose-done h later said port (err x) d d' r valid e =
    absurd (error_response-not_done x d d' said e)
parsed_unexpose-done h later said port (ok id) d d' r valid e =
    let after = unexpose h.world port id d in
    let (grants, services) = unexpose_grants h.world port id d in
    let (held, (disk, same)) = persisted-done h later _ said after d' r e in
    let granted = ap (λ x. x.manager.grants) same ∙ grants in
    (
      id,
      refl,
      (
        λ q peer. ap (λ g. allows g q peer) granted ∙ allows-remove d.manager.grants port id q peer,
        declared-Retired port d.manager.services d' valid λ q.
            ap (λ x. declared x.manager.services q) same
            ∙ ap (λ v. declared v q) services
            ∙ rw granted (
                retire-declared port q (Grants.remove d.manager.grants port id) d.manager.services),
        Kept-OnDisk h later d' valid held,
      ),
    )

-- Where the manager is sound, a request to revoke that is done has a key that parses, or none, and
-- took away exactly the grant of the port to the peer of that key, or every grant of the port; the
-- port's service is gone if that left the port with no grantee and otherwise stays, as the others do;
-- and the file on disk, if it can be read, holds exactly the grants, the backends and the remaps of
-- the result.
pub unexpose-done :
    (h : Host) (later : Answers) (port : ℕ) (to : Option Text) (d d' : Daemon) (said : Text)
    → later.reading ≡ none
    → Sound d.manager
    → handle_request h (Request.unexpose port to false) d ≡ (d', Response.done false said)
    → (id : Option ℕ) × NamesOne h.world to id × Revoked h later port id d d'
unfolding handle_request
unexpose-done h later port to d d' said r sound e =
    let valid = valid_after h (Request.unexpose port to false) d d' _ sound e in
    let (id, named, revoked) = parsed_unexpose-done h later said port _ d d' r valid e in
    (id, parse_optional-NamesOne h.world to id named, revoked)
