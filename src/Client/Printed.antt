-- ===== src/Client/Printed.antt =====
-- client.rs, `render`: the two streams and the exit code, for each kind of answer.
use ig.Base.{ℕ, ◌≡◌, refl, Bool, true, false, ◌∷◌, [], ◌++◌, if◌then◌else◌}
use ig.Base.Text.{Text, text}
use ig.Failure.{ok, exit_code}
use ig.Console.{Format, Json, Console, print, println, eprintln}
use ig.Console
use ig.Protocol.{Response}
use ig.Client.{
  Surroundings, render, printed_error, printed_done, printed_list, emit_value, print_json,
}
use ig.Client.Table.{ListView, text_view}
use ig.Client.Answer.{json_view, error_json, done_json, value_json}

-- The exit code of an answer.
abbrev pub code_of : Response → ℕ
code_of (Response.error kind message) = exit_code kind
code_of (Response.ticket id) = 0
code_of (Response.token token) = 0
code_of (Response.done dry_run detail) = 0
code_of (Response.list info) = 0

-- What an answer is as a result: in text, a bare value or a table, and nothing for an action or an
-- error; in JSON, one object.
abbrev pub result_text : Response → ListView → Text
result_text (Response.error kind message) view = []
result_text (Response.ticket id) view = id ++ 10 ∷ []
result_text (Response.token token) view = token ++ 10 ∷ []
result_text (Response.done dry_run detail) view = []
result_text (Response.list info) view = text_view info view

abbrev pub result_json : Response → ListView → Json
result_json (Response.error kind message) view = error_json kind message
result_json (Response.ticket id) view = value_json (text "id") id
result_json (Response.token token) view = value_json (text "token") token
result_json (Response.done dry_run detail) view = done_json dry_run detail
result_json (Response.list info) view = json_view info view

-- What is said beside the result: an error always, an action in text unless it is to be quiet.
abbrev pub chatter : Response → Format → Bool → Text
chatter (Response.error kind message) format quiet = (text "error: " ++ message) ++ 10 ∷ []
chatter (Response.done dry_run detail) Format.text false =
    ((if dry_run then text "would: " else []) ++ detail) ++ 10 ∷ []
chatter (Response.done dry_run detail) Format.text true = []
chatter (Response.done dry_run detail) Format.json quiet = []
chatter (Response.ticket id) format quiet = []
chatter (Response.token token) format quiet = []
chatter (Response.list info) format quiet = []

abbrev pub stdout_of : (Json → Text) → Response → ListView → Format → Text
stdout_of shown response view Format.text = result_text response view
stdout_of shown response view Format.json = shown (result_json response view) ++ 10 ∷ []

-- The exit code is that of the answer; the standard output has the result and nothing else, which in
-- text is nothing for an action or an error and in JSON one object; all that is said besides goes to
-- the standard error. Printing a value as JSON must not fail.
pub render-streams :
    (s : Surroundings) (shown : Json → Text) (response : Response) (view : ListView)
    (format : Format) (quiet : Bool)
    → ((j : Json) → s.pretty j ≡ ok (shown j))
    → render s response view format quiet ≡ (
      record {
        stdout = stdout_of shown response view format;
        stderr = chatter response format quiet;
      },
      ok (code_of response),
    )
unfolding render printed_error printed_done printed_list emit_value print_json println print
    eprintln Console.quiet
render-streams s shown (Response.error kind message) view Format.text quiet prints = refl
render-streams s shown (Response.error kind message) view Format.json quiet prints =
    rw (prints (error_json kind message)) refl
render-streams s shown (Response.ticket id) view Format.text quiet prints = refl
render-streams s shown (Response.ticket id) view Format.json quiet prints =
    rw (prints (value_json (text "id") id)) refl
render-streams s shown (Response.token token) view Format.text quiet prints = refl
render-streams s shown (Response.token token) view Format.json quiet prints =
    rw (prints (value_json (text "token") token)) refl
render-streams s shown (Response.done dry_run detail) view Format.text true prints = refl
render-streams s shown (Response.done true detail) view Format.text false prints = refl
render-streams s shown (Response.done false detail) view Format.text false prints = refl
render-streams s shown (Response.done dry_run detail) view Format.json quiet prints =
    rw (prints (done_json dry_run detail)) refl
render-streams s shown (Response.list info) view Format.text quiet prints = refl
render-streams s shown (Response.list info) view Format.json quiet prints =
    rw (prints (json_view info view)) refl
