-- ===== src/Daemon/Commands/Divergence.antt =====
-- daemon.rs, `handle_request`: the dry runs of adding and removing a peer, against the real runs.
use ig.Base.{ℕ, ◌≡◌, refl, true, false, none, some}
use ig.Base.Map.{contains_key}
use ig.Base.Text.{Text}
use ig.Failure.{internal, conflict, kind_of, exit_code, ok}
use ig.Peer.{World}
use ig.Peer.Roster.Refusals.{add_peer-known, remove_peer-unknown}
use ig.Protocol.{Request, error_response}
use ig.Daemon.{Daemon, Host, parse_key}
use ig.Daemon.Commands.{
  handle_request, parsed_add, add_peer, parsed_remove, remove_peer, then_persist, replied, managed,
}
use ig.Daemon.Commands.DryRun.{verdict}

parsed : (w : World) (key : Text) (id : ℕ) → w.parse key ≡ some id → parse_key w key ≡ ok id
unfolding parse_key
parsed w key id e = rw (e, parse_key)

removed-verdict :
    (h : Host) (key : Text) (id : ℕ) (d : Daemon)
    → h.parse key ≡ some id
    → contains_key id d.manager.peers ≡ false
    → (verdict (parsed_remove h key true (ok id) d).1 ≡ none)
      × (verdict (parsed_remove h key false (ok id) d).1 ≡ some internal)
unfolding parsed_remove then_persist managed error_response kind_of
removed-verdict h key id d p unknown = (
  refl,
  rw (remove_peer-unknown h.world key id d.manager p unknown)
      (unfold then_persist error_response kind_of in refl),
)

added-verdict :
    (h : Host) (key : Text) (id : ℕ) (d : Daemon)
    → h.parse key ≡ some id
    → contains_key id d.manager.peers ≡ true
    → (verdict (parsed_add h key true (ok id) d).1 ≡ none)
      × (verdict (parsed_add h key false (ok id) d).1 ≡ some conflict)
unfolding parsed_add replied managed error_response kind_of
added-verdict h key id d p known = (
  refl,
  rw (add_peer-known h.world key none id d.manager p known)
      (unfold replied error_response kind_of in refl),
)

-- Removing a peer that is not known goes through as a dry run, and fails when it is run: the error
-- is one that nothing classified, so that a caller exits 1.
pub remove_peer-diverges :
    (h : Host) (key : Text) (id : ℕ) (d : Daemon)
    → h.parse key ≡ some id
    → contains_key id d.manager.peers ≡ false
    → (verdict (handle_request h (Request.remove_peer key true) d).1 ≡ none)
      × (verdict (handle_request h (Request.remove_peer key false) d).1 ≡ some internal)
      × (exit_code internal ≡ 1)
unfolding handle_request remove_peer exit_code
remove_peer-diverges h key id d p unknown =
    let (dry, real) = removed-verdict h key id d p unknown in
    rw (parsed h.world key id p) (dry, real, refl)

-- Adding a peer that is known goes through as a dry run, and is a conflict when it is run.
pub add_peer-diverges :
    (h : Host) (key : Text) (id : ℕ) (d : Daemon)
    → h.parse key ≡ some id
    → contains_key id d.manager.peers ≡ true
    → (verdict (handle_request h (Request.add_peer key true) d).1 ≡ none)
      × (verdict (handle_request h (Request.add_peer key false) d).1 ≡ some conflict)
unfolding handle_request add_peer
add_peer-diverges h key id d p known =
    rw (parsed h.world key id p) (added-verdict h key id d p known)
