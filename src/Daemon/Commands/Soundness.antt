-- ===== src/Daemon/Commands/Soundness.antt =====
-- daemon.rs, `handle_request`: every request keeps the manager sound.
use ig.Base.{
  ℕ, refl, Bool, true, false, Option, none, some, List, subst, Bool-cases, inl, inr, ◌≡◌, contains,
}
use ig.Base.Text.{Text}
use ig.Failure.{Result, ok, err, ok-injective}
use ig.Backend.{BackendSpec}
use ig.Grants
use ig.Grants.Invariant.{remove-IsValid}
use ig.Service
use ig.Service.{Services}
use ig.Service.Registry.{register-IsValid}
use ig.Service.Registry
use ig.Enroll.{mint}
use ig.Enroll.Claims.{mint_with_ttl-IsValid}
use ig.Peer.{World, PeerManager}
use ig.Peer.Binding.Rebind.{set_bind-keeps}
use ig.Peer.History.{set_local-Sound}
use ig.Peer.Outgoing.Sent.{broadcast_grants-OnlySent}
use ig.Peer.Roster
use ig.Peer.Roster.Invariant.{add_peer-Sound, pin_peer-Sound, remove_peer-Sound}
use ig.Peer.Roster.Sharing.{Sound, touch-Sound, same-Sound, sent-Sound}
use ig.Protocol.{Request}
use ig.Daemon.{Daemon, Host, persist, unexpose, retire, on_manager}
use ig.Daemon.Run.Soundness.{granting, serving, expose-Sound}
use ig.Daemon.Commands.{
  Reply, replied, persisted, managed, parsed_add, add_peer, then_persist, parsed_remove,
  remove_peer, checked_expose, registered, declare_backend, expose_port, parsed_unexpose,
  unexpose_port, bind_port, parsed_pin, pin_peer, grant_token, handle_request,
}

-- The manager that a request leaves.
abbrev pub SoundAfter : Reply → Type 0
SoundAfter (d, response) = Sound d.manager

replied-Sound :
    (detail : Text) (r : Daemon × Result (Unit {0}))
    → Sound r.0.manager
    → SoundAfter (replied detail r)
unfolding replied
replied-Sound detail (d, ok _) s = s
replied-Sound detail (d, err e) s = s

persisted-Sound :
    (h : Host) (detail : Text) (d : Daemon) → Sound d.manager → SoundAfter (persisted h detail d)
unfolding persisted persist
persisted-Sound h detail d s =
    replied-Sound detail (persist h d) (same-Sound d.manager _ refl refl refl refl refl refl s)

managed-Sound :
    (d : Daemon) (r : PeerManager × Result (Unit {0})) → Sound r.0 → Sound (managed d r).0.manager
unfolding managed
managed-Sound d (m, r) s = s

add-Sound :
    (h : Host) (ticket : Text) (dry_run : Bool) (r : Result ℕ) (d : Daemon)
    → Sound d.manager
    → SoundAfter (parsed_add h ticket dry_run r d)
unfolding parsed_add
add-Sound h ticket dry_run (err e) d s = s
add-Sound h ticket true (ok id) d s = s
add-Sound h ticket false (ok id) d s = replied-Sound _ _ (
    managed-Sound d (Roster.add_peer h.world ticket none d.manager)
      (add_peer-Sound h.world ticket none d.manager s))

then_persist-Sound :
    (h : Host) (detail : Text) (r : Daemon × Result (Unit {0}))
    → Sound r.0.manager
    → SoundAfter (then_persist h detail r)
unfolding then_persist
then_persist-Sound h detail (d, ok _) s = persisted-Sound h detail d s
then_persist-Sound h detail (d, err e) s = s

remove-Sound :
    (h : Host) (ticket : Text) (dry_run : Bool) (r : Result ℕ) (d : Daemon)
    → Sound d.manager
    → SoundAfter (parsed_remove h ticket dry_run r d)
unfolding parsed_remove
remove-Sound h ticket dry_run (err e) d s = s
remove-Sound h ticket true (ok id) d s = s
remove-Sound h ticket false (ok id) d s = then_persist-Sound h _ _ (
    managed-Sound d (Roster.remove_peer h.world ticket d.manager)
      (remove_peer-Sound h.world ticket d.manager s))

declare_backend-IsValid :
    (backend : Option BackendSpec) (port : ℕ) (s s' : Services)
    → Service.IsValid s
    → declare_backend backend port s ≡ ok s'
    → Service.IsValid s'
unfolding declare_backend
declare_backend-IsValid none port s s' v e = subst Service.IsValid (ok-injective s s' e) v
declare_backend-IsValid (some spec) port s s' v e = register-IsValid s s' port spec v e

registered-Sound :
    (h : Host) (detail : Text) (port : ℕ) (to : List ℕ) (backend : Option BackendSpec)
    (r : Result Services) (d : Daemon)
    → declare_backend backend port d.manager.services ≡ r
    → Sound d.manager
    → SoundAfter (registered h detail port to r d)
unfolding registered
registered-Sound h detail port to backend (err e) d eq s = s
registered-Sound h detail port to backend (ok services) d eq s = persisted-Sound h detail _ (
    expose-Sound h.world port to (on_manager (λ m. record m { services = services }) d) (
      serving d.manager services
        (declare_backend-IsValid backend port d.manager.services services s.services eq) s))

checked-Sound :
    (h : Host) (port : ℕ) (backend : Option BackendSpec) (dry_run : Bool) (to : Result (List ℕ))
    (valid : Result (Unit {0})) (d : Daemon)
    → Sound d.manager
    → SoundAfter (checked_expose h port backend dry_run to valid d)
unfolding checked_expose
checked-Sound h port backend dry_run (err e) valid d s = s
checked-Sound h port backend dry_run (ok to) (err e) d s = s
checked-Sound h port backend true (ok to) (ok _) d s = s
checked-Sound h port backend false (ok to) (ok _) d s =
    registered-Sound h _ port to backend _ d refl s

retire-IsValid :
    (port : ℕ) (g : Grants.Grants) (v : Services)
    → Service.IsValid v
    → Service.IsValid (retire port g v)
unfolding retire
retire-IsValid port g v valid = elim (Bool-cases (contains (Grants.ports g) port)) [
  | inl e ↦ rw (retire, e) valid
  | inr e ↦ rw (retire, e) (Registry.remove-IsValid v port valid)
]

unexpose-Sound :
    (w : World) (port : ℕ) (to : Option ℕ) (d : Daemon)
    → Sound d.manager
    → Sound (unexpose w port to d).manager
unfolding unexpose
unexpose-Sound w port to d s =
    let grants = Grants.remove d.manager.grants port to in
    let services = retire port grants d.manager.services in
    sent-Sound _ _
      (broadcast_grants-OnlySent w (record d.manager { grants = grants; services = services }))
      (serving (record d.manager { grants = grants }) services
        (retire-IsValid port grants d.manager.services s.services)
        (granting d.manager grants (remove-IsValid d.manager.grants port to s.grants) s))

parsed_unexpose-Sound :
    (h : Host) (port : ℕ) (dry_run : Bool) (to : Result (Option ℕ)) (d : Daemon)
    → Sound d.manager
    → SoundAfter (parsed_unexpose h port dry_run to d)
unfolding parsed_unexpose
parsed_unexpose-Sound h port dry_run (err e) d s = s
parsed_unexpose-Sound h port true (ok to) d s = s
parsed_unexpose-Sound h port false (ok to) d s =
    persisted-Sound h _ _ (unexpose-Sound h.world port to d s)

bind_port-Sound :
    (h : Host) (port : ℕ) (local : Option ℕ) (dry_run : Bool) (d : Daemon)
    → Sound d.manager
    → SoundAfter (bind_port h port local dry_run d)
unfolding bind_port
bind_port-Sound h port local true d s = s
bind_port-Sound h port local false d s = persisted-Sound h _ _ (
    set_bind-keeps Sound touch-Sound h.world port local d.manager
      (set_local-Sound port local d.manager s))

pin-Sound :
    (h : Host) (key label : Text) (dry_run : Bool) (r : Result ℕ) (d : Daemon)
    → Sound d.manager
    → SoundAfter (parsed_pin h key label dry_run r d)
unfolding parsed_pin
pin-Sound h key label dry_run (err e) d s = s
pin-Sound h key label true (ok id) d s = s
pin-Sound h key label false (ok id) d s = replied-Sound _ _ (
    managed-Sound d (Roster.pin_peer h.world key label d.manager)
      (pin_peer-Sound h.world key label d.manager s))

grant_token-Sound :
    (h : Host) (label : Text) (d : Daemon) → Sound d.manager → SoundAfter (grant_token h label d)
unfolding grant_token mint
grant_token-Sound h label d s = record {
  table = record { one_entry = s.table.one_entry; points = s.table.points; fresh = s.table.fresh };
  grants = s.grants;
  services = s.services;
  tokens = mint_with_ttl-IsValid d.manager.tokens h.random label _ h.now s.tokens;
}

pub handle_request-Sound :
    (h : Host) (request : Request) (d : Daemon)
    → Sound d.manager
    → SoundAfter (handle_request h request d)
unfolding handle_request add_peer remove_peer expose_port unexpose_port pin_peer
handle_request-Sound h (Request.add_peer ticket dry_run) d s = add-Sound h ticket dry_run _ d s
handle_request-Sound h (Request.remove_peer ticket dry_run) d s =
    remove-Sound h ticket dry_run _ d s
handle_request-Sound h (Request.expose port to backend dry_run) d s =
    checked-Sound h port backend dry_run _ _ d s
handle_request-Sound h (Request.unexpose port to dry_run) d s =
    parsed_unexpose-Sound h port dry_run _ d s
handle_request-Sound h (Request.bind port local dry_run) d s =
    bind_port-Sound h port local dry_run d s
handle_request-Sound h (Request.pin key label dry_run) d s = pin-Sound h key label dry_run _ d s
handle_request-Sound h Request.list d s = s
handle_request-Sound h Request.list_peers d s = s
handle_request-Sound h Request.list_ports d s = s
handle_request-Sound h Request.ticket d s = s
handle_request-Sound h (Request.grant_token label) d s = grant_token-Sound h label d s
