-- ===== src/Daemon/Run/Restored.antt =====
-- daemon.rs, `restore`: what a daemon has been told after restoring any state.
use ig.Base.{
  ℕ, ◌≡◌, refl, Bool, true, false, ◌&&◌, ◌||◌, ◌==◌, Option, none, some, List, [], ◌∷◌,
  if◌then◌else◌, arith, Bool-cases, Option-cases, inl, inr, ap, sym, ◌∙◌, is_empty, subst, ==_iff,
}
use ig.Base.Map.{Map, get, get-insert, map_option}
use ig.Base.Text.{Text}
use ig.Failure.{Result, ok, err, ok-injective}
use ig.Backend.{BackendSpec}
use ig.Grants
use ig.Grants.{allows}
use ig.Grants.Access.{allows-add}
use ig.Service
use ig.Service.{Services, register}
use ig.Service.Registry.{declared, register-ok, entry}
use ig.State.{State, is_empty_state}
use ig.Peer.{World}
use ig.Peer.Roster.Pinning.{is_key}
use ig.Daemon.{
  Daemon, restore, restored, restore_services, restore_service, or_stop, restore_grants,
  restore_grant, set_binds,
}
use ig.Daemon.Run.{restore_if_any}
use ig.Daemon.Run.Overlaid.{landing, set_binds-landing}

-- Is there a row of this port for this key?
abbrev pub granted_in : World → List (ℕ × Text) → ℕ → ℕ → Bool
granted_in w [] q peer = false
granted_in w ((port, key) ∷ rows) q peer =
    (port == q && is_key (w.parse key) peer) || granted_in w rows q peer

-- The declaration that stands: the old one, if there is one.
abbrev pub or_declared : Option BackendSpec → Option BackendSpec → Option BackendSpec
or_declared (some spec) other = some spec
or_declared none other = other

-- The second daemon is the first after restoring this state.
pub record Restored (w : World) (state : State) (d e : Daemon) : Type 0 where
  pub grants :
      (q peer : ℕ)
      → allows e.manager.grants q peer
        ≡ (granted_in w state.grants q peer || allows d.manager.grants q peer)
  pub services :
      (q : ℕ)
      → declared e.manager.services q
        ≡ or_declared (declared d.manager.services q) (get q state.services)
  pub binds : (q : ℕ) → get q e.manager.binds ≡ landing state.binds q (get q d.manager.binds)

allows-restore_grant :
    (port : ℕ) (o : Option ℕ) (g : Grants.Grants) (q peer : ℕ)
    → allows (restore_grant port o g) q peer ≡ ((port == q && is_key o peer) || allows g q peer)
unfolding restore_grant
allows-restore_grant port none g q peer = ground arith
allows-restore_grant port (some id) g q peer = allows-add g port id q peer

restore_grants-granted :
    (w : World) (rows : List (ℕ × Text)) (g : Grants.Grants) (q peer : ℕ)
    → allows (restore_grants w rows g) q peer ≡ (granted_in w rows q peer || allows g q peer)
unfolding restore_grants
restore_grants-granted w [] g q peer = refl
restore_grants-granted w ((port, key) ∷ rows) g q peer = ground (
  arith,
  restore_grants-granted w rows (restore_grant port (w.parse key) g) q peer,
  allows-restore_grant port (w.parse key) g q peer,
)

or_declared-none : (o : Option BackendSpec) → or_declared o none ≡ o
or_declared-none none = refl
or_declared-none (some spec) = refl

or_declared_assoc :
    (a b c : Option BackendSpec) → or_declared (or_declared a b) c ≡ or_declared a (or_declared b c)
or_declared_assoc none b c = refl
or_declared_assoc (some spec) b c = refl

or_declared-hit :
    (port q : ℕ) (spec : BackendSpec) (rest : Option BackendSpec)
    → or_declared (if port == q then some spec else none) rest
      ≡ (if port == q then some spec else rest)
or_declared-hit port q spec rest = elim (Bool-cases (port == q)) [
  | inl e ↦ rw e refl
  | inr e ↦ rw e refl
]

-- A port that is declared keeps its declaration.
kept-told :
    (port q : ℕ) (spec old : BackendSpec) (o : Option BackendSpec)
    → (port ≡ q → o ≡ some old)
    → o ≡ or_declared o (if port == q then some spec else none)
kept-told port q spec old o h = elim (Bool-cases (port == q)) [
  | inl e ↦ rw (e, h ((==_iff port q).0 e)) refl
  | inr e ↦ rw e (sym (or_declared-none o))
]

-- A port that is not gets this one.
new-told :
    (port q : ℕ) (spec : BackendSpec) (o : Option BackendSpec)
    → (port ≡ q → o ≡ none)
    → (if port == q then some spec else o) ≡ or_declared o (if port == q then some spec else none)
new-told port q spec o h = elim (Bool-cases (port == q)) [
  | inl e ↦ rw (e, h ((==_iff port q).0 e)) refl
  | inr e ↦ rw e (sym (or_declared-none o))
]

restore_service-told :
    (port : ℕ) (spec : BackendSpec) (s s' : Services)
    → restore_service port spec s ≡ ok s'
    → (q : ℕ) → declared s' q ≡ or_declared (declared s q) (if port == q then some spec else none)
unfolding restore_service Service.contains
restore_service-told port spec s s' h q = elim (Option-cases (get port s.backends)) [
  | inl e ↦
      let r : register s port spec ≡ ok s' = ground (arith, e) in
      let same = (register-ok s s' port spec r).1 in
      let free : port ≡ q → declared s q ≡ none =
        λ p. ap (map_option (λ d. d.spec)) (ap (λ k. get k s.backends) (sym p) ∙ e) in
      ap (λ v. declared v q) same
      ∙ ground (arith, get-insert port q (entry port spec) s.backends)
      ∙ new-told port q spec (declared s q) free
  | inr (d, e) ↦
      let same : s ≡ s' = ok-injective s s' (ground (arith, e)) in
      let held : port ≡ q → declared s q ≡ some d.spec =
        λ p. ap (map_option (λ d. d.spec)) (ap (λ k. get k s.backends) (sym p) ∙ e) in
      ap (λ v. declared v q) (sym same) ∙ kept-told port q spec d.spec (declared s q) held
]

went_on :
    (s : Services) (r : Result Services) (rest : Services → Services × Result (Unit {0}))
    → (or_stop s r rest).1 ≡ ok tt
    → (s' : Services) × (r ≡ ok s') × ((rest s').1 ≡ ok tt) × (or_stop s r rest ≡ rest s')
unfolding or_stop
went_on s (err e) rest h = cc
went_on s (ok s') rest h = (s', refl, h, refl)

restore_services-told :
    (specs : Map BackendSpec) (s : Services)
    → (restore_services specs s).1 ≡ ok tt
    → (q : ℕ) → declared (restore_services specs s).0 q ≡ or_declared (declared s q) (get q specs)
unfolding restore_services get
restore_services-told [] s h q = sym (or_declared-none (declared s q))
restore_services-told ((port, spec) ∷ specs) s h q =
    let (s', one, rest, same) =
      went_on s (restore_service port spec s) (restore_services specs) h in
    ap (λ r. declared r.0 q) same
    ∙ restore_services-told specs s' rest q
    ∙ ap (λ o. or_declared o (get q specs)) (restore_service-told port spec s s' one q)
    ∙ or_declared_assoc (declared s q) _ (get q specs)
    ∙ ap (or_declared (declared s q)) (or_declared-hit port q spec (get q specs))

restored-Restored :
    (w : World) (state : State) (d e : Daemon) (r : Services × Result (Unit {0}))
    → restore_services state.services d.manager.services ≡ r
    → restored w state r d ≡ (e, ok tt)
    → Restored w state d e
unfolding restored
restored-Restored w state d e (s, err x) h k = cc
restored-Restored w state d e (s, ok _) h k =
    let m = record d.manager {
      services = s;
      grants = restore_grants w state.grants d.manager.grants;
    } in
    let (binds, grants, services) = set_binds-landing w state.binds m in
    let same : e ≡ record d { manager = set_binds w state.binds m } = ap (λ r. r.0) (sym k) in
    rw same (record {
      grants = λ q peer.
          ap (λ g. allows g q peer) grants
          ∙ restore_grants-granted w state.grants d.manager.grants q peer;
      services = λ q.
          ap (λ v. declared v q) (services ∙ ap (λ r. r.0) (sym h))
          ∙ restore_services-told state.services d.manager.services (ap (λ r. r.1) h) q;
      binds = binds;
    })

is_empty-nil : {A : Type 0} (xs : List A) → is_empty xs ≡ true → xs ≡ []
is_empty-nil [] h = refl
is_empty-nil (x ∷ xs) h = cc

nothing_told :
    (w : World) (state : State) (d : Daemon) → is_empty_state state ≡ true → Restored w state d d
unfolding is_empty_state get
nothing_told w state d h =
    let g : is_empty state.grants ≡ true = ground arith in
    let s : is_empty state.services ≡ true = ground arith in
    let b : is_empty state.binds ≡ true = ground arith in
    record {
      grants = λ q peer. rw (is_empty-nil state.grants g) refl;
      services = λ q.
          rw (is_empty-nil state.services s)
            (sym (or_declared-none (declared d.manager.services q)));
      binds = λ q. rw (is_empty-nil state.binds b) refl;
    }

pub restore_if_any-Restored :
    (w : World) (state : State) (d e : Daemon)
    → restore_if_any w state d ≡ (e, ok tt)
    → Restored w state d e
unfolding restore_if_any restore
restore_if_any-Restored w state d e h = elim (Bool-cases (is_empty_state state)) [
  | inl t ↦
      let same : d ≡ e = ground (arith, t) in
      subst (Restored w state d) same (nothing_told w state d t)
  | inr f ↦ restored-Restored w state d e _ refl (ground (arith, f))
]
