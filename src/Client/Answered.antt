-- ===== src/Client/Answered.antt =====
-- client.rs and daemon.rs: a command of the client, carried out by the daemon.
use ig.Base.{◌≡◌, refl, false, ap, Bool, none, some, List, [], ◌∷◌, ◌++◌, is_empty}
use ig.Base.Text.{Text}
use ig.Failure.{Result, ok, err}
use ig.Console.{Format, Json}
use ig.Protocol.{Request}
use ig.Daemon.{Daemon, Host}
use ig.Daemon.Commands.{handle_request}
use ig.Daemon.Control.{handle_client, handle_client-reply, read_line, read_line-whole}
use ig.Cli.{Command}
use ig.Client.{
  Surroundings, Socket, run, run_built, requested, answered, build_request, list_view, send,
  connected, exchanged, read_back,
}
use ig.Client.Printed.{render-streams, stdout_of, chatter, code_of}

-- What the client reads: a line, or nothing when the daemon closed the connection.
abbrev pub line_read : Result Text → Text
line_read (err e) = []
line_read (ok output) = read_line output

-- The socket of a daemon in this state.
abbrev pub socket_of : Host → Surroundings → Daemon → Socket
socket_of h s d = record {
  connect = none;
  exchange = λ input. ok (line_read (handle_client h s.requests s.responses input d).1);
}

is_empty-append : {A : Type 0} (xs : List A) (y : A) → is_empty (xs ++ y ∷ []) ≡ false
is_empty-append [] y = refl
is_empty-append (x ∷ xs) y = refl

-- A request that can be written, with an answer that can be written, comes back as that answer.
send-answer :
    (h : Host) (s : Surroundings) (path : Text) (d : Daemon) (request : Request) (sent json : Text)
    → s.requests.encode request ≡ ok sent
    → s.responses.encode (handle_request h request d).1 ≡ ok json
    → send s path (socket_of h s d) request ≡ ok (handle_request h request d).1
unfolding send connected exchanged read_back
send-answer h s path d request sent json e f =
    rw
      (
        e,
        handle_client-reply h s.requests s.responses request sent json d e f,
        read_line-whole json (s.responses.one_line (handle_request h request d).1 json f),
        is_empty-append json 10,
      )
      (s.responses.round_trip (handle_request h request d).1 json f)

-- A command that becomes a request prints what the daemon answers to that request in its state and
-- ends with the exit code of the answer. The request and the answer must have a JSON encoding, and
-- printing a value as JSON must not fail.
pub run_answered :
    (h : Host) (s : Surroundings) (shown : Json → Text) (path : Text) (d : Daemon)
    (command : Command) (request : Request) (format : Format) (quiet : Bool) (sent json : Text)
    → build_request s.loader command ≡ some (ok request)
    → s.requests.encode request ≡ ok sent
    → s.responses.encode (handle_request h request d).1 ≡ ok json
    → ((j : Json) → s.pretty j ≡ ok (shown j))
    → let answer = (handle_request h request d).1 in
      run s path (socket_of h s d) command format quiet
      ≡ some (
        record {
          stdout = stdout_of shown answer (list_view request) format;
          stderr = chatter answer format quiet;
        },
        ok (code_of answer),
      )
unfolding run run_built requested answered
run_answered h s shown path d command request format quiet sent json b e f prints =
    let answer = (handle_request h request d).1 in
    rw (b, run_built, requested, send-answer h s path d request sent json e f, answered)
      (ap some (render-streams s shown answer (list_view request) format quiet prints))
