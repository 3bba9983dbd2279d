-- ===== src/Daemon/Run/Told.antt =====
-- daemon.rs, `run`: what a daemon has been told when it starts.
use ig.Base.{
  ℕ, ◌≡◌, refl, ◌&&◌, ◌||◌, Option, none, some, List, [], contains, is_some, ap, subst, ◌∙◌, arith,
  Bool, false, ◌∷◌,
}
use ig.Base.Map.{get, contains_key, map_option}
use ig.Base.Text.{Text}
use ig.Failure.{ok}
use ig.Grants.{allows}
use ig.Grants.Access.{allows-default}
use ig.Service
use ig.Service.{Services}
use ig.Service.Registry.{declared}
use ig.Service.Files.{ServiceEntry}
use ig.Daemon.Run.Configured.{entry_for}
use ig.Peer.Roster.Pinning.{is_key}
use ig.Pins.{Pin}
use ig.State.{State}
use ig.Peer.{World}
use ig.Peer.Roster.Sharing.{Sound}
use ig.Daemon.{Daemon}
use ig.Daemon.Startup.{Fresh}
use ig.Daemon.Run.{Options, restore_if_any, overlay, parsed_peers}
use ig.Daemon.Run.Overlaid.{overlay-Overlaid, landing}
use ig.Daemon.Run.Restored.{restore_if_any-Restored, granted_in, or_declared}
use ig.Daemon.Run.Soundness.{overlay-Sound, restore_if_any-Sound}

-- Does one of these tickets parse to this peer?
abbrev pub invited : World → List Text → ℕ → Bool
invited w [] peer = false
invited w (ticket ∷ tickets) peer = is_key (w.parse ticket) peer || invited w tickets peer

contains-step :
    (o : Option ℕ) (ids : List ℕ) (peer : ℕ)
    → contains (elim o [ some id ↦ id ∷ ids | none ↦ ids ]) peer
      ≡ (is_key o peer || contains ids peer)
contains-step none ids peer = refl
contains-step (some id) ids peer = refl

contains-parsed_peers :
    (w : World) (tickets : List Text) (peer : ℕ)
    → contains (parsed_peers w tickets) peer ≡ invited w tickets peer
unfolding parsed_peers
contains-parsed_peers w [] peer = refl
contains-parsed_peers w (ticket ∷ tickets) peer =
    contains-step (w.parse ticket) (parsed_peers w tickets) peer
    ∙ ap (λ b. is_key (w.parse ticket) peer || b) (contains-parsed_peers w tickets peer)

-- What a daemon that has started was told: by the --service files, by the state that was on disk, and
-- by the rest of the command line.
pub record Told (w : World) (o : Options) (declarations : List ServiceEntry) (state : State)
    (d : Daemon) : Type 0 where
  pub sound : Sound d.manager
  pub grants :
      (q peer : ℕ)
      → allows d.manager.grants q peer ≡ (
          ((contains o.ports q || is_some (declared d.manager.services q))
            && invited w o.peers peer)
          || granted_in w state.grants q peer)
  pub services :
      (q : ℕ)
      → declared d.manager.services q
        ≡ or_declared (entry_for q declarations) (get q state.services)
  pub binds : (q : ℕ) → get q d.manager.binds ≡ landing o.binds q (landing state.binds q none)

pub contains_key-declared :
    (s : Services) (q : ℕ) → contains_key q s.backends ≡ is_some (declared s q)
contains_key-declared s q = go (get q s.backends)
  where
    go : (o : Option Service.Declared) → is_some o ≡ is_some (map_option (λ d. d.spec) o)
    go none = refl
    go (some d) = refl

pub empty_binds : (q : ℕ) → get {V = ℕ} q [] ≡ none
unfolding get
empty_binds q = refl

pub told :
    (w : World) (o : Options) (path : Text) (services : Services) (pins : List Pin) (state : State)
    (fresh before : Daemon)
    → Fresh w path services pins fresh
    → restore_if_any w state fresh ≡ (before, ok tt)
    → (declarations : List ServiceEntry)
    → ((q : ℕ) → declared services q ≡ entry_for q declarations)
    → Told w o declarations state (overlay w o before)
told w o path services pins state fresh before f h declarations same_entries =
    let r = restore_if_any-Restored w state fresh before h in
    let v = overlay-Overlaid w o before in
    let e = overlay w o before in
    record {
      sound =
          overlay-Sound w o before
            (subst (λ x. Sound x.0.manager) h (restore_if_any-Sound w state fresh f.sound));
      grants = λ q peer.
          v.grants q peer
          ∙ ground (
            arith,
            contains-parsed_peers w o.peers peer,
            contains_key-declared before.manager.services q,
            ap (λ s. declared s q) v.services,
            r.grants q peer,
            ap (λ g. allows g q peer) f.no_grants,
            allows-default q peer,
          );
      services = λ q.
          ap (λ s. declared s q) v.services
          ∙ r.services q
          ∙ ap (λ s. or_declared (declared s q) (get q state.services)) f.same_services
          ∙ ap (λ o. or_declared o (get q state.services)) (same_entries q);
      binds = λ q.
          v.binds q
          ∙ ap (landing o.binds q)
              (r.binds q ∙ ap (landing state.binds q) (ap (get q) f.no_binds ∙ empty_binds q));
    }
