-- ===== src/Daemon/Commands.antt =====
-- daemon.rs, `handle_request`: one function for each kind of request. A dry run stops short of the
-- change.
pub mod Retired
pub mod Saved
pub mod DryRun
pub mod Naming
pub mod Exposure
pub mod Success
pub mod Divergence
pub mod Soundness
pub mod Tests
use ig.Base.{
  ℕ, ◌≡◌, Bool, true, false, Option, none, some, List, [], ◌∷◌, ◌++◌, ◌==◌, if◌then◌else◌, length,
  is_empty,
}
use ig.Base.Text.{Text, text, decimal}
use ig.Failure.{Error, Result, ok, err, fail, invalid, ◌>>=◌}
use ig.Backend.{BackendSpec, validate}
use ig.Backend
use ig.Service
use ig.Service.{Services}
use ig.Enroll
use ig.Peer.{PeerManager, World}
use ig.Peer.Binding.{set_bind}
use ig.Peer.Outgoing.{peer_ids}
use ig.Peer.Roster
use ig.Protocol.{Request, Response, error_response}
use ig.Protocol
use ig.Daemon.{Daemon, Host, parse_key, persist, expose, unexpose, list, on_manager}
use ig.Daemon

abbrev pub Reply : Type 0
Reply = Daemon × Response

-- The last step of a request: how it ended, with the summary for when it ended well.
pub replied : Text → Daemon × Result (Unit {0}) → Reply
replied detail (d, ok _) = (d, Response.done false detail)
replied detail (d, err e) = (d, error_response e)

-- `match self.persist().await`, after a change.
pub persisted : Host → Text → Daemon → Reply
unfolding replied
persisted h detail d = replied detail (persist h d)

managed : Daemon → PeerManager × Result (Unit {0}) → Daemon × Result (Unit {0})
managed d (m, r) = (record d { manager = m }, r)

parsed_add : Host → Text → Bool → Result ℕ → Daemon → Reply
unfolding replied managed
parsed_add h ticket dry_run (err e) d = (d, error_response e)
parsed_add h ticket dry_run (ok id) d =
    if dry_run
    then (d, Response.done true (text "connect to peer " ++ h.key_text id))
    else replied (text "connected to peer " ++ ticket)
        (managed d (Roster.add_peer h.world ticket none d.manager))

pub add_peer : Host → Text → Bool → Daemon → Reply
unfolding parsed_add
add_peer h ticket dry_run d = parsed_add h ticket dry_run (parse_key h.world ticket) d

then_persist : Host → Text → Daemon × Result (Unit {0}) → Reply
unfolding persisted
then_persist h detail (d, ok _) = persisted h detail d
then_persist h detail (d, err e) = (d, error_response e)

parsed_remove : Host → Text → Bool → Result ℕ → Daemon → Reply
unfolding then_persist managed
parsed_remove h ticket dry_run (err e) d = (d, error_response e)
parsed_remove h ticket dry_run (ok id) d =
    if dry_run
    then (d, Response.done true (text "disconnect from peer " ++ h.key_text id))
    else then_persist h (text "removed peer " ++ ticket)
        (managed d (Roster.remove_peer h.world ticket d.manager))

pub remove_peer : Host → Text → Bool → Daemon → Reply
unfolding parsed_remove
remove_peer h ticket dry_run d = parsed_remove h ticket dry_run (parse_key h.world ticket) d

parse_keys : World → List Text → Result (List ℕ)
parse_keys w [] = ok []
parse_keys w (key ∷ keys) = do id ← parse_key w key; ids ← parse_keys w keys; ok (id ∷ ids)

known_peers : List ℕ → Result (List ℕ)
known_peers [] = err (fail invalid (text "no peers to grant to; use --to <key>"))
known_peers (id ∷ ids) = ok (id ∷ ids)

pub grantees : World → List Text → Daemon → Result (List ℕ)
unfolding parse_keys known_peers
grantees w to d = if is_empty to then known_peers (peer_ids d.manager) else parse_keys w to

pub valid_backend : Option BackendSpec → ℕ → Result (Unit {0})
valid_backend none port = ok tt
valid_backend (some spec) port = validate spec port

served_by : Option BackendSpec → ℕ → Services → Text
served_by none port s = Service.describe s port
served_by (some spec) port s = Backend.describe spec

declare_backend : Option BackendSpec → ℕ → Services → Result Services
declare_backend none port s = ok s
declare_backend (some spec) port s = Service.register s port spec

registered : Host → Text → ℕ → List ℕ → Result Services → Daemon → Reply
unfolding persisted
registered h detail port to (err e) d = (d, error_response e)
registered h detail port to (ok s) d =
    persisted h detail (expose h.world port to (on_manager (λ m. record m { services = s }) d))

checked_expose :
    Host → ℕ → Option BackendSpec → Bool → Result (List ℕ) → Result (Unit {0}) → Daemon → Reply
unfolding served_by declare_backend registered
checked_expose h port backend dry_run (err e) valid d = (d, error_response e)
checked_expose h port backend dry_run (ok to) (err e) d = (d, error_response e)
checked_expose h port backend dry_run (ok to) (ok _) d =
    let detail =
      text "expose "
      ++ (decimal port
          ++ (text " to "
              ++ (decimal (length to)
                  ++ (text " peer(s), served by "
                      ++ served_by backend port d.manager.services)))) in
    if dry_run
    then (d, Response.done true detail)
    else registered h detail port to (declare_backend backend port d.manager.services) d

pub expose_port : Host → ℕ → List Text → Option BackendSpec → Bool → Daemon → Reply
unfolding checked_expose grantees valid_backend
expose_port h port to backend dry_run d =
    checked_expose h port backend dry_run (grantees h.world to d) (valid_backend backend port) d

pub parse_optional : World → Option Text → Result (Option ℕ)
parse_optional w none = ok none
parse_optional w (some key) = do id ← parse_key w key; ok (some id)

revoke_detail : World → ℕ → Option ℕ → Text
revoke_detail w port none = text "revoke every grant for " ++ decimal port
revoke_detail w port (some id) =
    text "revoke " ++ (decimal port ++ (text " from " ++ w.key_text id))

parsed_unexpose : Host → ℕ → Bool → Result (Option ℕ) → Daemon → Reply
unfolding revoke_detail persisted
parsed_unexpose h port dry_run (err e) d = (d, error_response e)
parsed_unexpose h port dry_run (ok to) d =
    let detail = revoke_detail h.world port to in
    if dry_run
    then (d, Response.done true detail)
    else persisted h detail (unexpose h.world port to d)

pub unexpose_port : Host → ℕ → Option Text → Bool → Daemon → Reply
unfolding parse_optional parsed_unexpose
unexpose_port h port to dry_run d = parsed_unexpose h port dry_run (parse_optional h.world to) d

bind_detail : ℕ → Option ℕ → Text
bind_detail port none =
    text "bind peer port " ++ (decimal port ++ (text " on " ++ (decimal port ++ text " again")))
bind_detail port (some local) =
    if local == 0
    then text "bind peer port " ++ (decimal port ++ text " on a free local port")
    else text "bind peer port " ++ (decimal port ++ (text " on local port " ++ decimal local))

pub bind_port : Host → ℕ → Option ℕ → Bool → Daemon → Reply
unfolding bind_detail persisted
bind_port h port local dry_run d =
    if dry_run
    then (d, Response.done true (bind_detail port local))
    else persisted h (bind_detail port local) (on_manager (set_bind h.world port local) d)

quoted : Text → Text
quoted label = text " as \"" ++ (label ++ text "\"")

parsed_pin : Host → Text → Text → Bool → Result ℕ → Daemon → Reply
unfolding replied managed quoted
parsed_pin h key label dry_run (err e) d = (d, error_response e)
parsed_pin h key label dry_run (ok id) d =
    if dry_run
    then (d, Response.done true (text "pin " ++ (h.key_text id ++ quoted label)))
    else replied (text "pinned " ++ (key ++ quoted label))
        (managed d (Roster.pin_peer h.world key label d.manager))

pub pin_peer : Host → Text → Text → Bool → Daemon → Reply
unfolding parsed_pin
pin_peer h key label dry_run d = parsed_pin h key label dry_run (parse_key h.world key) d

pub grant_token : Host → Text → Daemon → Reply
grant_token h label d =
    let minted = Enroll.mint d.manager.tokens h.random label h.now in
    (on_manager (λ m. record m { tokens = minted.0 }) d, Response.token minted.1)

unfoldable pub handle_request : Host → Request → Daemon → Reply
unfolding add_peer remove_peer expose_port unexpose_port bind_port pin_peer grant_token
handle_request h (Request.add_peer ticket dry_run) d = add_peer h ticket dry_run d
handle_request h (Request.remove_peer ticket dry_run) d = remove_peer h ticket dry_run d
handle_request h (Request.expose port to backend dry_run) d =
    expose_port h port to backend dry_run d
handle_request h (Request.unexpose port to dry_run) d = unexpose_port h port to dry_run d
handle_request h (Request.bind port local dry_run) d = bind_port h port local dry_run d
handle_request h (Request.pin key label dry_run) d = pin_peer h key label dry_run d
handle_request h Request.list d = (d, Response.list (list h.world d))
handle_request h Request.list_peers d = (d, Response.list (list h.world d))
handle_request h Request.list_ports d = (d, Response.list (list h.world d))
handle_request h Request.ticket d = (d, Response.ticket (Daemon.ticket h.world d))
handle_request h (Request.grant_token label) d = grant_token h label d
