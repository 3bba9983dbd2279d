-- ===== src/Daemon/Restored.antt =====
-- daemon.rs, `restore`: the grants, the services and the remaps of a saved state, each on its own.
use ig.Base.{
  ℕ, suc, ◌≡◌, refl, ◌||◌, some, List, [], ◌∷◌, arith, ◌==◌, if◌then◌else◌, Option-cases, inl, inr,
  ap, ◌∙◌, Above, Above-contains, unwrap_or, is_some,
}
use ig.Base.Map.{Map, get, insert, keys, contains_key, get-insert, contains-keys}
use ig.Base.Rows.{has_row}
use ig.Failure.{ok}
use ig.Backend.{BackendSpec, validate}
use ig.Grants
use ig.Grants.{allows}
use ig.Grants.Access.{allows-add}
use ig.Service
use ig.Service.{Services, built, register, IpAddr}
use ig.Service.Registry.{declared, register-valid, with_entry, entry}
use ig.Peer.{PeerManager, World}
use ig.Peer.Binding.{set_bind}
use ig.Peer.Binding.Rebind.{set_bind-keeps}
use ig.Daemon.{
  restore_services, restore_service, or_stop, restore_grants, restore_grant, grant_rows, set_binds,
}

-- Rows that are replayed are granted, on top of what was.
pub allows-restore_grants :
    (w : World) (rows : List (ℕ × ℕ)) (g : Grants.Grants) (q peer : ℕ)
    → ((id : ℕ) → w.parse (w.key_text id) ≡ some id)
    → allows (restore_grants w (grant_rows w rows) g) q peer
      ≡ (has_row rows q peer || allows g q peer)
unfolding restore_grants grant_rows restore_grant
allows-restore_grants w [] g q peer law = refl
allows-restore_grants w ((port, to) ∷ rows) g q peer law =
    rw (restore_grants, law to, restore_grant)
      (ground (
        arith,
        allows-restore_grants w rows (Grants.add g port to) q peer law,
        allows-add g port to q peer,
      ))

-- A registry in which a port is declared as before, and otherwise as in the list.
pub restore_service-declared :
    (port : ℕ) (spec : BackendSpec) (s : Services)
    → validate spec port ≡ ok tt
    → (s' : Services) × (restore_service port spec s ≡ ok s')
      × ((q : ℕ)
          → declared s' q
            ≡ (if port == q then some (unwrap_or (declared s q) spec) else declared s q))
unfolding restore_service Service.contains
restore_service-declared port spec s valid = elim (Option-cases (get port s.backends)) [
  | inl e ↦ (
    with_entry s port spec,
    rw (e, restore_service, Service.contains) (register-valid s port spec valid),
    λ q. ground (arith, get-insert port q (entry port spec) s.backends, e),
  )
  | inr (d, e) ↦ (s, rw (e, restore_service, Service.contains), λ q. ground (arith, e))
]

-- Every spec in the list is accepted for its port.
abbrev pub AllValid : Map BackendSpec → Type 0
AllValid specs = (q : ℕ) (spec : BackendSpec) → get q specs ≡ some spec → validate spec q ≡ ok tt

pub restore_services-declared :
    (n : ℕ) (specs : Map BackendSpec) (s : Services)
    → Above n (keys specs)
    → AllValid specs
    → ((restore_services specs s).1 ≡ ok tt)
      × ((q : ℕ)
          → declared (restore_services specs s).0 q
            ≡ (if is_some (declared s q) then declared s q else get q specs))
unfolding restore_services keys get
restore_services-declared n [] s b valid = (refl, λ q. ground arith)
restore_services-declared n ((port, spec) ∷ specs) s b valid =
    let (s', done, first) = restore_service-declared port spec s (valid port spec (ground arith)) in
    let rest = restore_services-declared (suc port) specs s' b.1 λ q sp h.
      valid q sp
        (ground (arith, Above-contains (suc port) port (keys specs), contains-keys port specs)) in
    rw (restore_services, done, or_stop) (rest.0, λ q. ground (arith, rest.1 q, first q))

pub set_bind-binds :
    (w : World) (port local : ℕ) (m : PeerManager)
    → (set_bind w port (some local) m).binds ≡ insert port local m.binds
set_bind-binds w port local m =
    set_bind-keeps (λ n. n.binds ≡ insert port local m.binds) (λ addr f n calm h. h) w port
      (some local) m refl

pub set_bind-told :
    (w : World) (port local : ℕ) (m : PeerManager)
    → ((set_bind w port (some local) m).grants ≡ m.grants)
      × ((set_bind w port (some local) m).services ≡ m.services)
set_bind-told w port local m =
    set_bind-keeps (λ n. (n.grants ≡ m.grants) × (n.services ≡ m.services)) (λ addr f n calm h. h) w
      port (some local) m (refl, refl)

-- The remaps after some were replayed, and what that leaves alone.
pub set_binds-binds :
    (n : ℕ) (w : World) (binds : List (ℕ × ℕ)) (m : PeerManager)
    → Above n (keys binds)
    → ((q : ℕ)
        → get q (set_binds w binds m).binds
          ≡ (if contains_key q binds then get q binds else get q m.binds))
      × ((set_binds w binds m).grants ≡ m.grants)
      × ((set_binds w binds m).services ≡ m.services)
unfolding set_binds keys get
set_binds-binds n w [] m b = (λ q. refl, refl, refl)
set_binds-binds n w ((port, local) ∷ binds) m b =
    let next = set_bind w port (some local) m in
    let (values, grants, services) = set_binds-binds (suc port) w binds next b.1 in
    let (same_grants, same_services) = set_bind-told w port local m in
    (
      λ q. ground (
        arith,
        values q,
        ap (get q) (set_bind-binds w port local m),
        get-insert port q local m.binds,
        Above-contains (suc port) port (keys binds),
        contains-keys q binds,
      ),
      grants ∙ same_grants,
      services ∙ same_services,
    )
