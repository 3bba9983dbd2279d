-- ===== src/Client/Tests.antt =====
-- client.rs: samples. The sample codecs know one request and one kind of answer.
use ig.Base.{
  ◌≡◌, refl, false, some, [], ◌∷◌, ◌++◌, arith, contains, if◌then◌else◌, Bool-cases, inl, inr,
}
use ig.Base.Text.{Text, text, before}
use ig.Failure.{Result, ok, err, anyhow}
use ig.Console.{Format, Json}
use ig.Protocol.{LineCodec, Request, Response}
use ig.Daemon
use ig.Daemon.Commands.{handle_request}
use ig.Daemon.Commands.Tests.{host, daemon}
use ig.Cli.{Command}
use ig.Client.{Surroundings, run, build_request, list_view}
use ig.Client.Printed.{stdout_of, chatter, code_of}
use ig.Client.Answered.{run_answered, socket_of}

abbrev write_request : Request → Result Text
write_request Request.ticket = ok (b'T' ∷ [])
write_request Request.list = err (anyhow [])
write_request Request.list_peers = err (anyhow [])
write_request Request.list_ports = err (anyhow [])
write_request (Request.add_peer ticket dry_run) = err (anyhow [])
write_request (Request.remove_peer ticket dry_run) = err (anyhow [])
write_request (Request.expose port to backend dry_run) = err (anyhow [])
write_request (Request.bind port local dry_run) = err (anyhow [])
write_request (Request.unexpose port to dry_run) = err (anyhow [])
write_request (Request.grant_token label) = err (anyhow [])
write_request (Request.pin key label dry_run) = err (anyhow [])

pub written :
    (r : Request) (s : Text) → write_request r ≡ ok s → (r ≡ Request.ticket) × (s ≡ b'T' ∷ [])
written Request.ticket s h = (refl, ground arith)
written Request.list s h = cc
written Request.list_peers s h = cc
written Request.list_ports s h = cc
written (Request.add_peer ticket dry_run) s h = cc
written (Request.remove_peer ticket dry_run) s h = cc
written (Request.expose port to backend dry_run) s h = cc
written (Request.bind port local dry_run) s h = cc
written (Request.unexpose port to dry_run) s h = cc
written (Request.grant_token label) s h = cc
written (Request.pin key label dry_run) s h = cc

abbrev requests : LineCodec Request
requests = record {
  encode = write_request;
  decode = λ s. ok Request.ticket;
  one_line = λ r s h. rw ((written r s h).1) refl;
  round_trip = λ r s h. rw ((written r s h).0) refl;
}

abbrev write_response : Response → Result Text
write_response (Response.ticket id) = if contains id 10 then err (anyhow []) else ok id
write_response (Response.token token) = err (anyhow [])
write_response (Response.list info) = err (anyhow [])
write_response (Response.done dry_run detail) = err (anyhow [])
write_response (Response.error kind message) = err (anyhow [])

pub answer_written :
    (r : Response) (s : Text)
    → write_response r ≡ ok s
    → (r ≡ Response.ticket s) × (contains s 10 ≡ false)
answer_written (Response.ticket id) s h = elim (Bool-cases (contains id 10)) [
  | inl e ↦ ground arith
  | inr e ↦ ground arith
]
answer_written (Response.token token) s h = cc
answer_written (Response.list info) s h = cc
answer_written (Response.done dry_run detail) s h = cc
answer_written (Response.error kind message) s h = cc

pub before-line : (s : Text) → contains s 10 ≡ false → before 10 (s ++ 10 ∷ []) ≡ s
unfolding before
before-line [] h = refl
before-line (c ∷ cs) h = ground (arith, before-line cs)

abbrev responses : LineCodec Response
responses = record {
  encode = write_response;
  decode = λ s. ok (Response.ticket (before 10 s));
  one_line = λ r s h. (answer_written r s h).1;
  round_trip =
      λ r s h. let (same, line) = answer_written r s h in rw (same, before-line s line) refl;
}

abbrev shown : Json → Text
shown j = b'J' ∷ []

abbrev pub surroundings : Surroundings
surroundings = record {
  loader = record {
    read_to_string = λ path. err (anyhow []);
    parse_services = λ s. err (anyhow []);
    parse_routes = λ s. err (anyhow []);
  };
  requests = requests;
  responses = responses;
  pretty = λ j. ok (shown j);
}

asked : build_request surroundings.loader Command.id ≡ some (ok Request.ticket)
unfolding build_request
asked = refl

answered : write_response (handle_request host Request.ticket daemon).1 ≡ ok (60 ∷ [])
unfolding handle_request Daemon.ticket
answered = refl

abbrev answer : Response
answer = (handle_request host Request.ticket daemon).1

run_answered_example :
    run surroundings
      (text "ig.sock")
      (socket_of host surroundings daemon)
      Command.id
      Format.text
      false
    ≡ some (
      record {
        stdout = stdout_of shown answer (list_view Request.ticket) Format.text;
        stderr = chatter answer Format.text false;
      },
      ok (code_of answer),
    )
run_answered_example =
    run_answered host surroundings shown (text "ig.sock") daemon Command.id Request.ticket
      Format.text false (b'T' ∷ []) (60 ∷ []) asked refl answered (λ j. refl)
