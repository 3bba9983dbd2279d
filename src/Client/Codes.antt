-- ===== src/Client/Codes.antt =====
-- client.rs: the exit codes of the client.
use ig.Base.{ℕ, ◌≡◌, refl, Bool, true, Option, none, some, is_some}
use ig.Base.Text.{Text}
use ig.Failure.{Result, ok, err, exit_code}
use ig.Console.{Format, Console}
use ig.Protocol.{Request, Response}
use ig.Service.Files.{Loader}
use ig.Cli.{Command}
use ig.Schema.Codes.{Published, PublishedResult, zero-Published, kind-Published}
use ig.Client.{
  Surroundings, Socket, Outcome, render, printed_error, printed_done, printed_list, emit_value,
  print_json, answered, requested, run_built, build_request, run, send, list_view,
}
use ig.Client.Table.{ListView}

-- What a command of the client returns.
print_json-Published :
    (r : Result Text) (c : Console) (code : ℕ)
    → Published code
    → PublishedResult (print_json r c code).1
unfolding print_json
print_json-Published (ok t) c code p = p
print_json-Published (err e) c code p = tt

render-Published :
    (s : Surroundings) (response : Response) (view : ListView) (format : Format) (is_quiet : Bool)
    → PublishedResult (render s response view format is_quiet).1
unfolding render printed_error printed_done printed_list emit_value
render-Published s (Response.error kind message) view Format.text is_quiet = kind-Published kind
render-Published s (Response.error kind message) view Format.json is_quiet =
    print_json-Published _ _ (exit_code kind) (kind-Published kind)
render-Published s (Response.ticket id) view Format.text is_quiet = zero-Published
render-Published s (Response.ticket id) view Format.json is_quiet =
    print_json-Published _ _ 0 zero-Published
render-Published s (Response.token token) view Format.text is_quiet = zero-Published
render-Published s (Response.token token) view Format.json is_quiet =
    print_json-Published _ _ 0 zero-Published
render-Published s (Response.done dry_run detail) view Format.text is_quiet = zero-Published
render-Published s (Response.done dry_run detail) view Format.json is_quiet =
    print_json-Published _ _ 0 zero-Published
render-Published s (Response.list info) view Format.text is_quiet = zero-Published
render-Published s (Response.list info) view Format.json is_quiet =
    print_json-Published _ _ 0 zero-Published

-- The client ends with a published code or an error, and not with a panic.
abbrev pub Fine : Option Outcome → Type 0
Fine none = ⊥
Fine (some (console, result)) = PublishedResult result

answered-Published :
    (s : Surroundings) (view : ListView) (format : Format) (is_quiet : Bool) (r : Result Response)
    → PublishedResult (answered s view format is_quiet r).1
unfolding answered
answered-Published s view format is_quiet (err e) = tt
answered-Published s view format is_quiet (ok response) =
    render-Published s response view format is_quiet

requested-Published :
    (s : Surroundings) (path : Text) (socket : Socket) (format : Format) (is_quiet : Bool)
    (r : Result Request)
    → PublishedResult (requested s path socket format is_quiet r).1
unfolding requested
requested-Published s path socket format is_quiet (err e) = tt
requested-Published s path socket format is_quiet (ok request) =
    answered-Published s (list_view request) format is_quiet (send s path socket request)

-- The commands that are the client's.
abbrev pub IsClient : Command → Type 0
IsClient Command.id = Unit {0}
IsClient Command.status = Unit {0}
IsClient (Command.peer cmd) = Unit {0}
IsClient (Command.port cmd) = Unit {0}
IsClient (Command.daemon args) = ⊥
IsClient (Command.autostart cmd) = ⊥
IsClient (Command.upgrade dry_run) = ⊥
IsClient (Command.completion shell) = ⊥

built :
    (l : Loader) (command : Command) → IsClient command → is_some (build_request l command) ≡ true
unfolding build_request
built l Command.id h = refl
built l Command.status h = refl
built l (Command.peer cmd) h = refl
built l (Command.port cmd) h = refl
built l (Command.daemon args) h = absurd h
built l (Command.autostart cmd) h = absurd h
built l (Command.upgrade dry_run) h = absurd h
built l (Command.completion shell) h = absurd h

run_built-Fine :
    (s : Surroundings) (path : Text) (socket : Socket) (format : Format) (is_quiet : Bool)
    (o : Option (Result Request))
    → is_some o ≡ true
    → Fine (run_built s path socket format is_quiet o)
unfolding run_built
run_built-Fine s path socket format is_quiet none h = absurd (cc)
run_built-Fine s path socket format is_quiet (some r) h =
    requested-Published s path socket format is_quiet r

pub run-Fine :
    (s : Surroundings) (path : Text) (socket : Socket) (command : Command) (format : Format)
    (is_quiet : Bool)
    → IsClient command
    → Fine (run s path socket command format is_quiet)
unfolding run
run-Fine s path socket command format is_quiet h =
    run_built-Fine s path socket format is_quiet _ (built s.loader command h)
