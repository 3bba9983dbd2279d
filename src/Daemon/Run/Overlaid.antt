-- ===== src/Daemon/Run/Overlaid.antt =====
-- daemon.rs, `run`: this run's declarations over what was restored.
use ig.Base.{
  ℕ, ◌≡◌, refl, ◌&&◌, ◌||◌, ◌==◌, Option, some, List, [], ◌∷◌, ◌++◌, if◌then◌else◌, contains,
  contains-sort, contains-set_insert, contains-append, arith, ap, ◌∙◌,
}
use ig.Base.Map.{get, contains_key, keys, contains-keys, get-insert}
use ig.Base.Text.{Text}
use ig.Grants.{allows}
use ig.Service
use ig.Service.{Services}
use ig.Peer.{PeerManager, World}
use ig.Peer.Binding.{set_bind}
use ig.Peer.Roster.{add_peer}
use ig.Peer.Roster.Pinning.{ToldAlike}
use ig.Peer.Roster.Dialled.{sent-ToldAlike, add_peer-ToldAlike}
use ig.Daemon.Restored.{set_bind-binds, set_bind-told}
use ig.Peer.Outgoing.Sent.{broadcast_grants-OnlySent}
use ig.Daemon.{Daemon, expose, set_binds, on_manager}
use ig.Daemon.Commands.Exposure.{expose_grants}
use ig.Daemon.Run.{
  Options, parsed_peers, once_each, port_set, expose_each, add_each, announce_if_any, overlay,
}

contains-once_each : (ports : List ℕ) (q : ℕ) → contains (once_each ports) q ≡ contains ports q
unfolding once_each
contains-once_each [] q = refl
contains-once_each (port ∷ ports) q =
    ground (arith, contains-set_insert port q (once_each ports), contains-once_each ports q)

contains-port_set : (ports : List ℕ) (q : ℕ) → contains (port_set ports) q ≡ contains ports q
unfolding port_set
contains-port_set ports q = contains-sort q (once_each ports) ∙ contains-once_each ports q

expose_each-grants :
    (w : World) (ports grantees : List ℕ) (d : Daemon)
    → let e = expose_each w ports grantees d in
      ((q peer : ℕ)
        → allows e.manager.grants q peer
          ≡ ((contains ports q && contains grantees peer) || allows d.manager.grants q peer))
      × (e.manager.services ≡ d.manager.services)
      × (e.manager.binds ≡ d.manager.binds)
unfolding expose_each
expose_each-grants w [] grantees d = (λ q peer. refl, refl, refl)
expose_each-grants w (port ∷ ports) grantees d =
    let (grants, services, binds) =
      expose_each-grants w ports grantees (expose w port grantees d) in
    let (one, same_services, same_binds) = expose_grants w port grantees d in
    (
      λ q peer. ground (arith, grants q peer, one q peer),
      services ∙ same_services,
      binds ∙ same_binds,
    )

add_each-ToldAlike :
    (w : World) (tickets : List Text) (token : Option Text) (m : PeerManager)
    → ToldAlike (add_each w tickets token m) m
unfolding add_each
add_each-ToldAlike w [] token m = (refl, refl, refl)
add_each-ToldAlike w (ticket ∷ tickets) token m =
    let (a, b, c) = add_each-ToldAlike w tickets token (add_peer w ticket token m).0 in
    let (a', b', c') = add_peer-ToldAlike w ticket token m in (a ∙ a', b ∙ b', c ∙ c')

announce-ToldAlike :
    (w : World) (tickets : List Text) (m : PeerManager) → ToldAlike (announce_if_any w tickets m) m
unfolding announce_if_any
announce-ToldAlike w [] m = (refl, refl, refl)
announce-ToldAlike w (ticket ∷ tickets) m = sent-ToldAlike m _ (broadcast_grants-OnlySent w m)

-- Where a port lands after these remaps, of which a later one wins.
abbrev pub landing : List (ℕ × ℕ) → ℕ → Option ℕ → Option ℕ
landing [] q old = old
landing ((port, local) ∷ binds) q old = landing binds q (if port == q then some local else old)

pub set_binds-landing :
    (w : World) (binds : List (ℕ × ℕ)) (m : PeerManager)
    → let n = set_binds w binds m in
      ((q : ℕ) → get q n.binds ≡ landing binds q (get q m.binds))
      × (n.grants ≡ m.grants)
      × (n.services ≡ m.services)
unfolding set_binds
set_binds-landing w [] m = (λ q. refl, refl, refl)
set_binds-landing w ((port, local) ∷ binds) m =
    let (values, grants, services) = set_binds-landing w binds (set_bind w port (some local) m) in
    let (same_grants, same_services) = set_bind-told w port local m in
    (
      λ q.
          values q
          ∙ ap (landing binds q)
              (ap (get q) (set_bind-binds w port local m) ∙ get-insert port q local m.binds),
      grants ∙ same_grants,
      services ∙ same_services,
    )

contains-ports : (s : Services) (q : ℕ) → contains (Service.ports s) q ≡ contains_key q s.backends
unfolding Service.ports
contains-ports s q = contains-sort q (keys s.backends) ∙ contains-keys q s.backends

-- A daemon with this run's declarations over what it had.
pub record Overlaid (w : World) (o : Options) (d e : Daemon) : Type 0 where
  pub grants :
      (q peer : ℕ)
      → allows e.manager.grants q peer ≡ (
          ((contains o.ports q || contains_key q d.manager.services.backends)
            && contains (parsed_peers w o.peers) peer)
          || allows d.manager.grants q peer)
  pub services : e.manager.services ≡ d.manager.services
  pub binds : (q : ℕ) → get q e.manager.binds ≡ landing o.binds q (get q d.manager.binds)

pub overlay-Overlaid : (w : World) (o : Options) (d : Daemon) → Overlaid w o d (overlay w o d)
unfolding overlay
overlay-Overlaid w o d =
    let bound = on_manager (set_binds w o.binds) d in
    let ports = port_set (o.ports ++ Service.ports bound.manager.services) in
    let exposed = expose_each w ports (parsed_peers w o.peers) bound in
    let added = add_each w o.peers o.enroll exposed.manager in
    let (landed, bound_grants, bound_services) = set_binds-landing w o.binds d.manager in
    let (grants, services, binds) = expose_each-grants w ports (parsed_peers w o.peers) bound in
    let (a, b, c) = add_each-ToldAlike w o.peers o.enroll exposed.manager in
    let (a', b', c') = announce-ToldAlike w o.peers added in
    record {
      grants = λ q peer.
          ap (λ g. allows g q peer) (a' ∙ a)
          ∙ grants q peer
          ∙ ground (
            arith,
            contains-port_set (o.ports ++ Service.ports bound.manager.services) q,
            contains-append o.ports (Service.ports bound.manager.services) q,
            contains-ports bound.manager.services q,
            ap (λ s. contains_key q s.backends) bound_services,
            ap (λ g. allows g q peer) bound_grants,
          );
      services = c' ∙ c ∙ services ∙ bound_services;
      binds = λ q. ap (get q) (b' ∙ b ∙ binds) ∙ landed q;
    }
