-- ===== src/Daemon/Restart.antt =====
-- daemon.rs: `snapshot`, then `restore` into a fresh daemon.
use ig.Base.{ℕ, ◌≡◌, refl, none, some, [], arith, ap, ◌∙◌, sym}
use ig.Base.Map.{get, to_btree, get-to_btree, to_btree-Above, map_option}
use ig.Failure.{Result, ok, err}
use ig.Grants
use ig.Grants.{allows}
use ig.Grants.Access.{allows-default}
use ig.Grants.Views.{all-allows}
use ig.Service
use ig.Service.{Services, built, register, IpAddr}
use ig.Service.Registry.{declared, snapshot-declared, declared-valid}
use ig.Peer.{PeerManager, World}
use ig.Peer.Binding.{binds_snapshot, local_for}
use ig.Peer.Roster.Sharing.{Sound}
use ig.State.{State}
use ig.Daemon.{
  Daemon, snapshot, restore, restored, restore_services, restore_grants, grant_rows, set_binds,
}
use ig.Daemon.Restored.{allows-restore_grants, restore_services-declared, set_binds-binds}

-- A daemon just built, before anything was declared.
pub record IsFresh (d : Daemon) : Type 0 where
  pub no_grants : d.manager.grants ≡ Grants.default
  pub no_services : d.manager.services.backends ≡ []
  pub no_binds : d.manager.binds ≡ []

-- The two daemons were told the same: who may reach which port, what each port is backed by, and
-- where each announced port lands.
pub record SameTold (d e : Daemon) : Type 0 where
  pub grants :
      (port peer : ℕ) → allows e.manager.grants port peer ≡ allows d.manager.grants port peer
  pub services : (port : ℕ) → declared e.manager.services port ≡ declared d.manager.services port
  pub binds : (port : ℕ) → local_for e.manager port ≡ local_for d.manager port

nothing {ℓ} : {V : Type ℓ} (q : ℕ) → get {V = V} q [] ≡ none
unfolding get
nothing q = refl

-- What a restore that goes through makes of the manager.
restored_manager : World → State → Services → PeerManager → PeerManager
restored_manager w state services m =
    set_binds w state.binds
      (record m { services = services; grants = restore_grants w state.grants m.grants })

restored-ok :
    (w : World) (state : State) (r : Services × Result (Unit {0})) (e : Daemon)
    → r.1 ≡ ok tt
    → restored w state r e ≡ (record e { manager = restored_manager w state r.0 e.manager }, ok tt)
unfolding restored restored_manager
restored-ok w state (services, ok _) e h = refl
restored-ok w state (services, err x) e h = cc

restored-told :
    (w : World) (d : Daemon) (s : Services) (m : PeerManager)
    → ((id : ℕ) → w.parse (w.key_text id) ≡ some id)
    → Sound d.manager
    → m.grants ≡ Grants.default
    → m.binds ≡ []
    → ((q : ℕ) → declared s q ≡ declared d.manager.services q)
    → let n = restored_manager w (snapshot w d) s m in
      ((q peer : ℕ) → allows n.grants q peer ≡ allows d.manager.grants q peer)
      × ((q : ℕ) → declared n.services q ≡ declared d.manager.services q)
      × ((q : ℕ) → local_for n q ≡ local_for d.manager q)
unfolding restored_manager snapshot binds_snapshot
restored-told w d s m law sound no_grants no_binds told =
    let rows = Grants.all d.manager.grants in
    let (values, grants, services) =
      set_binds-binds 0 w (to_btree d.manager.binds)
        (record m { services = s; grants = restore_grants w (grant_rows w rows) m.grants })
        (to_btree-Above d.manager.binds) in
    (
      λ q peer.
          ap (λ g. allows g q peer) grants
          ∙ allows-restore_grants w rows m.grants q peer law
          ∙ ground (
            arith,
            (all-allows d.manager.grants sound.grants).1 q peer,
            ap (λ g. allows g q peer) no_grants,
            allows-default q peer,
          ),
      λ q. ap (λ v. declared v q) services ∙ told q,
      λ q.
          let same : get q (restored_manager w (snapshot w d) s m).binds ≡ get q d.manager.binds =
            ground (
              arith,
              values q,
              get-to_btree q d.manager.binds,
              ap (get q) no_binds,
              nothing {V = ℕ} q,
            ) in
          unfold local_for in rw same,
    )

-- Where every key's text parses to the key, a fresh daemon that restores the snapshot of a sound
-- one has been told all that the other was: every grant, every declared backend and every remap,
-- and nothing else.
pub restore-snapshot :
    (w : World) (d e : Daemon)
    → ((id : ℕ) → w.parse (w.key_text id) ≡ some id)
    → Sound d.manager
    → IsFresh e
    → ((restore w (snapshot w d) e).1 ≡ ok tt) × SameTold d (restore w (snapshot w d) e).0
unfolding restore snapshot
restore-snapshot w d e law sound fresh =
    let specs = Service.snapshot d.manager.services in
    let r = restore_services specs e.manager.services in
    let (ascending, saved) = snapshot-declared d.manager.services in
    let (done, told) =
      restore_services-declared 0 specs e.manager.services ascending
        (λ q spec h. declared-valid d.manager.services q spec sound.services (sym (saved q) ∙ h)) in
    let (grants, services, binds) =
      restored-told w d r.0 e.manager law sound fresh.no_grants fresh.no_binds (λ q. ground (
        arith,
        told q,
        saved q,
        ap (λ b. map_option (λ x. x.spec) (get q b)) fresh.no_services,
        nothing {V = Service.Declared} q,
      )) in
    rw (restored-ok w (snapshot w d) r e done)
      (refl, record { grants = grants; services = services; binds = binds })
