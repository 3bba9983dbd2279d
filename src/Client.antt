-- ===== src/Client.antt =====
-- client.rs: from a command to a request, and from the daemon's answer to what is printed and the
-- exit code.
pub mod Table
pub mod Answer
pub mod Printed
pub mod Answered
pub mod Codes
pub mod Tests
use ig.Base.{
  ℕ, ◌≡◌, Bool, true, false, Option, none, some, List, [], ◌∷◌, ◌++◌, if◌then◌else◌, is_empty,
}
use ig.Base.Text.{Text, text}
use ig.Failure.{
  Error, Result, ok, err, fail, anyhow, ErrorKind, invalid, not_found, conflict, denied,
  unavailable, internal, exit_code, ◌>>=◌,
}
use ig.Console.{Format, Json, Elements, Fields, Console, print, println, eprintln}
use ig.Console
use ig.Client.Answer.{json_view, error_json, done_json, value_json}
use ig.Backend.{BackendSpec, Route}
use ig.Service.Files.{Loader, load_routes}
use ig.Peer.Outgoing.{PeerInfo, BindingInfo}
use ig.Protocol.{LineCodec, Request, Response, ListInfo, ExposedInfo, GrantInfo, RemapInfo}
use ig.Cli.{Command, PeerCmd, PortCmd}
use ig.Client.Table.{ListView, text_view}

pub list_view : Request → ListView
list_view Request.list = ListView.all
list_view Request.list_peers = ListView.peers
list_view Request.list_ports = ListView.ports
list_view (Request.add_peer ticket dry_run) = ListView.none
list_view (Request.remove_peer ticket dry_run) = ListView.none
list_view (Request.expose port to backend dry_run) = ListView.none
list_view (Request.bind port local dry_run) = ListView.none
list_view (Request.unexpose port to dry_run) = ListView.none
list_view Request.ticket = ListView.none
list_view (Request.grant_token label) = ListView.none
list_view (Request.pin key label dry_run) = ListView.none

http_backend : Result (List Route) → Result (Option BackendSpec)
http_backend (err e) = err e
http_backend (ok routes) = ok (some (BackendSpec.http routes))

-- The match on `(upstream, unix, routes)`.
unfoldable pub backend_of :
    Loader → Option Text → Option Text → Option Text → Result (Option BackendSpec)
unfolding http_backend
backend_of l (some upstream) none none = ok (some (BackendSpec.tcp upstream))
backend_of l none (some path) none = ok (some (BackendSpec.unix path))
backend_of l none none (some file) = http_backend (load_routes l file)
backend_of l none none none = ok none
backend_of l (some upstream) (some path) none = ok none
backend_of l (some upstream) (some path) (some file) = ok none
backend_of l (some upstream) none (some file) = ok none
backend_of l none (some path) (some file) = ok none

peer_request : PeerCmd → Request
peer_request (PeerCmd.add ticket dry_run) = Request.add_peer ticket dry_run
peer_request (PeerCmd.rm ticket dry_run) = Request.remove_peer ticket dry_run
peer_request PeerCmd.ls = Request.list_peers
peer_request (PeerCmd.pin key label dry_run) = Request.pin key label dry_run
peer_request (PeerCmd.token label) = Request.grant_token label

port_request : Loader → PortCmd → Result Request
port_request l (PortCmd.expose port to upstream unix routes dry_run) = do
  backend ← backend_of l upstream unix routes
  ok (Request.expose port to backend dry_run)
port_request l (PortCmd.unexpose port to dry_run) = ok (Request.unexpose port to dry_run)
port_request l PortCmd.ls = ok Request.list_ports
port_request l (PortCmd.bind port local clear dry_run) =
    ok (Request.bind port (if clear then none else local) dry_run)

-- `none` is the panic of a command that is not the client's.
unfoldable pub build_request : Loader → Command → Option (Result Request)
unfolding peer_request port_request
build_request l Command.id = some (ok Request.ticket)
build_request l Command.status = some (ok Request.list)
build_request l (Command.peer cmd) = some (ok (peer_request cmd))
build_request l (Command.port cmd) = some (port_request l cmd)
build_request l (Command.daemon args) = none
build_request l (Command.completion shell) = none
build_request l (Command.autostart cmd) = none
build_request l (Command.upgrade dry_run) = none

-- The daemon's end of the socket: an error of the connection, or what comes back for what is written.
pub record Socket : Type 0 where
  pub connect : Option Text
  pub exchange : Text → Result Text

pub record Surroundings : Type 0 where
  pub loader : Loader
  pub requests : LineCodec Request
  pub responses : LineCodec Response
  pub pretty : Json → Result Text

read_back : Surroundings → Text → Result Response
read_back s line =
    if is_empty line
    then err (anyhow (text "daemon closed the connection without replying"))
    else s.responses.decode line

-- The whole of `send` after the connection.
exchanged : Surroundings → Socket → Request → Result Response
unfolding read_back
exchanged s socket request = do
  written ← s.requests.encode request
  line ← socket.exchange (written ++ 10 ∷ [])
  read_back s line

connected : Text → Option Text → Result Response → Result Response
connected path (some e) rest = err (
    fail unavailable (
      text "cannot reach the daemon at "
      ++ (path ++ (text " (" ++ (e ++ text "); start it with `ig daemon`")))))
connected path none rest = rest

unfoldable pub send : Surroundings → Text → Socket → Request → Result Response
unfolding connected exchanged
send s path socket request = connected path socket.connect (exchanged s socket request)

-- What a command did: the two streams, and the exit code or the error.
abbrev pub Outcome : Type 0
Outcome = Console × Result ℕ

-- `println!` of a pretty value onto what is printed already; `?` on a value that cannot be printed.
print_json : Result Text → Console → ℕ → Outcome
print_json (ok t) c code = (println t c, ok code)
print_json (err e) c code = (c, err e)

printed_error : Surroundings → ErrorKind → Text → Format → Console → Outcome
unfolding print_json
printed_error s kind message Format.text c = (c, ok (exit_code kind))
printed_error s kind message Format.json c =
    print_json (s.pretty (error_json kind message)) c (exit_code kind)

unfoldable pub emit_value : Surroundings → Format → Text → Text → Outcome
unfolding print_json
emit_value s Format.text key value = (println value Console.quiet, ok 0)
emit_value s Format.json key value = print_json (s.pretty (value_json key value)) Console.quiet 0

printed_done : Surroundings → Format → Bool → Bool → Text → Outcome
unfolding print_json
printed_done s Format.text quiet dry_run detail = (
  if quiet
      then Console.quiet
      else eprintln ((if dry_run then text "would: " else []) ++ detail) Console.quiet,
  ok 0,
)
printed_done s Format.json quiet dry_run detail =
    print_json (s.pretty (done_json dry_run detail)) Console.quiet 0

printed_list : Surroundings → Format → ListInfo → ListView → Outcome
unfolding print_json
printed_list s Format.json info view = print_json (s.pretty (json_view info view)) Console.quiet 0
printed_list s Format.text info view = (print (text_view info view) Console.quiet, ok 0)

unfoldable pub render : Surroundings → Response → ListView → Format → Bool → Outcome
unfolding printed_error printed_done printed_list
render s (Response.error kind message) view format quiet =
    printed_error s kind message format (eprintln (text "error: " ++ message) Console.quiet)
render s (Response.ticket id) view format quiet = emit_value s format (text "id") id
render s (Response.token token) view format quiet = emit_value s format (text "token") token
render s (Response.done dry_run detail) view format quiet =
    printed_done s format quiet dry_run detail
render s (Response.list info) view format quiet = printed_list s format info view

answered : Surroundings → ListView → Format → Bool → Result Response → Outcome
answered s view format quiet (err e) = (Console.quiet, err e)
answered s view format quiet (ok response) = render s response view format quiet

requested : Surroundings → Text → Socket → Format → Bool → Result Request → Outcome
unfolding answered
requested s path socket format quiet (err e) = (Console.quiet, err e)
requested s path socket format quiet (ok request) =
    answered s (list_view request) format quiet (send s path socket request)

run_built : Surroundings → Text → Socket → Format → Bool → Option (Result Request) → Option Outcome
unfolding requested
run_built s path socket format quiet none = none
run_built s path socket format quiet (some r) = some (requested s path socket format quiet r)

unfoldable pub run : Surroundings → Text → Socket → Command → Format → Bool → Option Outcome
unfolding run_built
run s path socket command format quiet =
    run_built s path socket format quiet (build_request s.loader command)
