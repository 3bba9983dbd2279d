-- ===== src/Daemon/Run/Soundness.antt =====
-- daemon.rs, `run`: the steps of startup keep the manager sound and its services valid.
use ig.Base.{ℕ, ◌≡◌, refl, Option, none, some, List, [], ◌∷◌, arith, Bool-cases, inl, inr, subst}
use ig.Base.Map.{Map}
use ig.Base.Text.{Text}
use ig.Failure.{Result, ok, err, ok-injective}
use ig.Backend.{BackendSpec}
use ig.Grants
use ig.Grants.Invariant.{add-IsValid}
use ig.Service
use ig.Service.{Services, register, register_new}
use ig.Service.Registry.{register-IsValid}
use ig.State.{State, is_empty_state}
use ig.Peer.{PeerManager, World}
use ig.Peer.Binding.{set_bind}
use ig.Peer.Binding.Rebind.{set_bind-keeps}
use ig.Peer.Roster.{add_peer}
use ig.Peer.Roster.Sharing.{Sound, touch-Sound, sent-Sound}
use ig.Peer.Roster.Invariant.{add_peer-Sound}
use ig.Peer.Outgoing.Sent.{broadcast_grants-OnlySent}
use ig.Peer.History.{set_local-Sound}
use ig.Daemon.{
  Daemon, expose, grant_each, set_binds, restore, restored, restore_services, restore_service,
  or_stop, restore_grants, restore_grant,
}
use ig.Daemon.Run.{
  Options, parsed_peers, expose_each, add_each, announce_if_any, overlay, restore_if_any,
}

set_binds-Sound :
    (w : World) (binds : List (ℕ × ℕ)) (m : PeerManager) → Sound m → Sound (set_binds w binds m)
unfolding set_binds
set_binds-Sound w [] m s = s
set_binds-Sound w ((port, local) ∷ binds) m s =
    set_binds-Sound w binds (set_bind w port (some local) m) (
      set_bind-keeps Sound touch-Sound w port (some local) m
        (set_local-Sound port (some local) m s))

pub granting :
    (m : PeerManager) (g : Grants.Grants)
    → Grants.IsValid g
    → Sound m
    → Sound (record m { grants = g })
granting m g v s = record {
  table = record { one_entry = s.table.one_entry; points = s.table.points; fresh = s.table.fresh };
  grants = v;
  services = s.services;
  tokens = s.tokens;
}

grant_each-IsValid :
    (port : ℕ) (to : List ℕ) (g : Grants.Grants)
    → Grants.IsValid g
    → Grants.IsValid (grant_each port to g)
unfolding grant_each
grant_each-IsValid port [] g v = v
grant_each-IsValid port (to ∷ others) g v =
    grant_each-IsValid port others (Grants.add g port to) (add-IsValid g port to v)

pub expose-Sound :
    (w : World) (port : ℕ) (to : List ℕ) (d : Daemon)
    → Sound d.manager
    → Sound (expose w port to d).manager
unfolding expose
expose-Sound w port to d s =
    sent-Sound _ _
      (broadcast_grants-OnlySent w
        (record d.manager { grants = grant_each port to d.manager.grants }))
      (granting d.manager (grant_each port to d.manager.grants)
        (grant_each-IsValid port to d.manager.grants s.grants) s)

expose_each-Sound :
    (w : World) (ports to : List ℕ) (d : Daemon)
    → Sound d.manager
    → Sound (expose_each w ports to d).manager
unfolding expose_each
expose_each-Sound w [] to d s = s
expose_each-Sound w (port ∷ ports) to d s =
    expose_each-Sound w ports to (expose w port to d) (expose-Sound w port to d s)

add_each-Sound :
    (w : World) (tickets : List Text) (token : Option Text) (m : PeerManager)
    → Sound m
    → Sound (add_each w tickets token m)
unfolding add_each
add_each-Sound w [] token m s = s
add_each-Sound w (ticket ∷ tickets) token m s =
    add_each-Sound w tickets token (add_peer w ticket token m).0 (add_peer-Sound w ticket token m s)

announce-Sound :
    (w : World) (tickets : List Text) (m : PeerManager)
    → Sound m
    → Sound (announce_if_any w tickets m)
unfolding announce_if_any
announce-Sound w [] m s = s
announce-Sound w (ticket ∷ tickets) m s = sent-Sound m _ (broadcast_grants-OnlySent w m) s

pub overlay-Sound :
    (w : World) (o : Options) (d : Daemon) → Sound d.manager → Sound (overlay w o d).manager
unfolding overlay
overlay-Sound w o d s = announce-Sound w o.peers _ (
    add_each-Sound w o.peers o.enroll _
      (expose_each-Sound w _ (parsed_peers w o.peers) _ (set_binds-Sound w o.binds d.manager s)))

restore_service-IsValid :
    (port : ℕ) (spec : BackendSpec) (s s' : Services)
    → Service.IsValid s
    → restore_service port spec s ≡ ok s'
    → Service.IsValid s'
unfolding restore_service
restore_service-IsValid port spec s s' v h = elim (Bool-cases (Service.contains s port)) [
  | inl e ↦ subst Service.IsValid (ok-injective s s' (ground (arith, e))) v
  | inr e ↦ register-IsValid s s' port spec v (ground (arith, e))
]

or_stop-IsValid :
    (s : Services) (r : Result Services) (rest : Services → Services × Result (Unit {0}))
    → Service.IsValid s
    → ((t : Services) → r ≡ ok t → Service.IsValid (rest t).0)
    → Service.IsValid (or_stop s r rest).0
unfolding or_stop
or_stop-IsValid s (err e) rest v f = v
or_stop-IsValid s (ok t) rest v f = f t refl

restore_services-IsValid :
    (specs : Map BackendSpec) (s : Services)
    → Service.IsValid s
    → Service.IsValid (restore_services specs s).0
unfolding restore_services
restore_services-IsValid [] s v = v
restore_services-IsValid ((port, spec) ∷ specs) s v =
    or_stop-IsValid s (restore_service port spec s) (restore_services specs) v
      λ t h. restore_services-IsValid specs t (restore_service-IsValid port spec s t v h)

restore_grant-IsValid :
    (port : ℕ) (o : Option ℕ) (g : Grants.Grants)
    → Grants.IsValid g
    → Grants.IsValid (restore_grant port o g)
unfolding restore_grant
restore_grant-IsValid port none g v = v
restore_grant-IsValid port (some id) g v = add-IsValid g port id v

restore_grants-IsValid :
    (w : World) (rows : List (ℕ × Text)) (g : Grants.Grants)
    → Grants.IsValid g
    → Grants.IsValid (restore_grants w rows g)
unfolding restore_grants
restore_grants-IsValid w [] g v = v
restore_grants-IsValid w ((port, key) ∷ rows) g v =
    restore_grants-IsValid w rows (restore_grant port (w.parse key) g)
      (restore_grant-IsValid port (w.parse key) g v)

pub serving :
    (m : PeerManager) (s : Services)
    → Service.IsValid s
    → Sound m
    → Sound (record m { services = s })
serving m s v h = record {
  table = record { one_entry = h.table.one_entry; points = h.table.points; fresh = h.table.fresh };
  grants = h.grants;
  services = v;
  tokens = h.tokens;
}

restored-Sound :
    (w : World) (state : State) (r : Services × Result (Unit {0})) (d : Daemon)
    → Service.IsValid r.0
    → Sound d.manager
    → Sound (restored w state r d).0.manager
unfolding restored
restored-Sound w state (s, err e) d v h = serving d.manager s v h
restored-Sound w state (s, ok _) d v h =
    let g = restore_grants w state.grants d.manager.grants in
    set_binds-Sound w state.binds _ (
      serving (record d.manager { grants = g }) s v
        (granting d.manager g (restore_grants-IsValid w state.grants d.manager.grants h.grants) h))

pub restore_if_any-Sound :
    (w : World) (state : State) (d : Daemon)
    → Sound d.manager
    → Sound (restore_if_any w state d).0.manager
unfolding restore_if_any restore
restore_if_any-Sound w state d h = elim (Bool-cases (is_empty_state state)) [
  | inl e ↦ rw e h
  | inr e ↦ rw e (
      restored-Sound w state (restore_services state.services d.manager.services) d
        (restore_services-IsValid state.services d.manager.services h.services) h)
]
