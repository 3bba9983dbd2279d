-- ===== src/Daemon/Commands/Saved.antt =====
-- daemon.rs, `persist`, as the last step of a request.
use ig.Base.{ℕ, ◌≡◌, refl, false, none, ap, List, [], ◌∷◌}
use ig.Base.Map.{get, get-to_btree}
use ig.Grants
use ig.Grants.{allows}
use ig.Grants.Views.{all-allows}
use ig.Base.Rows.{has_row}
use ig.Service.Registry.{declared, snapshot-declared}
use ig.Peer.{World}
use ig.Base.Text.{Text}
use ig.Failure.{Error, Result, ok, err}
use ig.Disk.{Disk, Answers}
use ig.State.{State, load}
use ig.State.Restart.{load-save, Saved, as_saved}
use ig.Peer.Binding.{binds_snapshot}
use ig.Protocol.{Response, error_response}
use ig.Daemon.{Daemon, Host, snapshot, persist, on_manager, grant_rows}
use ig.Daemon.Commands.{Reply, persisted, replied}

-- The rows of a table of grants, with the text of each key.
abbrev pub texts : World → List (ℕ × ℕ) → List (ℕ × Text)
texts w [] = []
texts w ((port, id) ∷ rows) = (port, w.key_text id) ∷ texts w rows

-- The daemon's file loads as a snapshot of the daemon.
pub record Kept (h : Host) (later : Answers) (d : Daemon) : Type 0 where
  pub state : State
  pub loaded : load h.state_codec d.store later d.manager.disk ≡ ok state
  pub version : state.version ≡ 1
  pub grants : state.grants ≡ texts h.world (Grants.all d.manager.grants)
  pub services : (q : ℕ) → get q state.services ≡ declared d.manager.services q
  pub binds : (q : ℕ) → get q state.binds ≡ get q d.manager.binds

-- The daemon's file loads as what the daemon was told: a row for each grant in force, with the text
-- of its key, and no other; the backend that each port was declared with; and where each port was
-- remapped to.
pub record OnDisk (h : Host) (later : Answers) (d : Daemon) : Type 0 where
  pub state : State
  pub loaded : load h.state_codec d.store later d.manager.disk ≡ ok state
  pub version : state.version ≡ 1
  pub rows : List (ℕ × ℕ)
  pub written : state.grants ≡ texts h.world rows
  pub grants : (q peer : ℕ) → has_row rows q peer ≡ allows d.manager.grants q peer
  pub services : (q : ℕ) → get q state.services ≡ declared d.manager.services q
  pub binds : (q : ℕ) → get q state.binds ≡ get q d.manager.binds

pub Kept-OnDisk :
    (h : Host) (later : Answers) (d : Daemon)
    → Grants.IsValid d.manager.grants
    → Kept h later d
    → OnDisk h later d
Kept-OnDisk h later d valid k = record {
  state = k.state;
  loaded = k.loaded;
  version = k.version;
  rows = Grants.all d.manager.grants;
  written = k.grants;
  grants = (all-allows d.manager.grants valid).1;
  services = k.services;
  binds = k.binds;
}

grant_rows-texts : (w : World) (rows : List (ℕ × ℕ)) → grant_rows w rows ≡ texts w rows
unfolding grant_rows
grant_rows-texts w [] = refl
grant_rows-texts w ((port, id) ∷ rows) =
    ap (λ rs. (port, w.key_text id) ∷ rs) (grant_rows-texts w rows)

loaded-Kept :
    (h : Host) (later : Answers) (d : Daemon)
    → load h.state_codec d.store later d.manager.disk ≡ ok (as_saved (snapshot h.world d))
    → Kept h later d
unfolding snapshot binds_snapshot
loaded-Kept h later d e = record {
  state = as_saved (snapshot h.world d);
  loaded = e;
  version = refl;
  grants = grant_rows-texts h.world (Grants.all d.manager.grants);
  services = (snapshot-declared d.manager.services).1;
  binds = λ q. get-to_btree q d.manager.binds;
}

pub error_response-not_done :
    (x : Error) (d d' : Daemon) (said : Text)
    → ◌≡◌ {A = Reply} (d, error_response x) (d', Response.done false said)
    → ⊥
unfolding error_response
error_response-not_done x d d' said e = differ (ap (λ r. r.1) e)
  where
    differ : error_response x ≡ Response.done false said → ⊥
    differ e = cc

pub replied-done :
    (detail said : Text) (r : Daemon × Result (Unit {0})) (d' : Daemon)
    → replied detail r ≡ (d', Response.done false said)
    → (r.0 ≡ d') × (r.1 ≡ ok tt)
unfolding replied
replied-done detail said (d, ok _) d' e = (ap (λ x. x.0) e, refl)
replied-done detail said (d, err x) d' e = absurd (error_response-not_done x d d' said e)

pub Saved-load :
    (h : Host) (later : Answers) (d : Daemon) (out : Disk × Result (Unit {0}))
    → Saved h.state_codec d.store (snapshot h.world d) later d.manager.disk out
    → out.1 ≡ ok tt
    → load h.state_codec d.store later out.0 ≡ ok (as_saved (snapshot h.world d))
Saved-load h later d (disk, ok _) s e = s
Saved-load h later d (disk, err x) s e = cc

-- A persist that reports success has the file hold what the daemon was told, and changes nothing
-- but the disk.
pub persist-Kept :
    (h : Host) (later : Answers) (d : Daemon)
    → later.reading ≡ none
    → (persist h d).1 ≡ ok tt
    → Kept h later (persist h d).0
      × ((disk : Disk) × ((persist h d).0 ≡ on_manager (λ m. record m { disk = disk }) d))
unfolding persist
persist-Kept h later d r e = (
  loaded-Kept h later (persist h d).0 (
      unfold persist snapshot binds_snapshot in
      Saved-load h later d _
        (load-save h.state_codec d.store h.pid (snapshot h.world d) h.state_answers later
          d.manager.disk r)
        e),
  (_, refl),
)

-- What was changed before a persist that reports success is what the file now holds.
pub persisted-done :
    (h : Host) (later : Answers) (detail said : Text) (d d' : Daemon)
    → later.reading ≡ none
    → persisted h detail d ≡ (d', Response.done false said)
    → Kept h later d' × ((disk : Disk) × (d' ≡ on_manager (λ m. record m { disk = disk }) d))
unfolding persisted
persisted-done h later detail said d d' r e =
    let (same, done) = replied-done detail said (persist h d) d' e in
    rw (← same) (persist-Kept h later d r done)
