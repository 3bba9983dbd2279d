-- ===== src/Schema.antt =====
-- schema.rs: what `--dump-schema` prints, from the command tree, which is clap's, and the table of
-- exit codes.
pub mod Codes
pub mod Mirrored
mod Tests
use ig.Base.{
  ◌≡◌, refl, Bool, true, false, not, ◌||◌, Option, none, some, List, [], ◌∷◌, ◌++◌, if◌then◌else◌,
  is_empty, keep, map,
}
use ig.Base.Text.{Text, text, text_eq}
use ig.Failure.{Result}
use ig.Console.{Json, Elements, Fields}

unfoldable pub exit_codes : List (Text × Text)
exit_codes =
    (text "0", text "success")
    ∷ (text "1", text "internal error")
    ∷ (text "2", text "invalid arguments or request")
    ∷ (text "3", text "not found")
    ∷ (text "4", text "denied")
    ∷ (text "5", text "conflict")
    ∷ (text "7", text "daemon unavailable")
    ∷ []

-- The entry of a code in the printed object.
unfoldable pub meaning : Text → List (Text × Text) → Option Text
meaning code [] = none
meaning code ((c, words) ∷ codes) = if text_eq c code then some words else meaning code codes

-- What clap knows of an argument. `repeatable` is the action `Append` or `Count`, and the last four
-- are the first of the names, of the values and of the defaults, and the variable.
pub record Arg : Type 0 where
  pub id : Text
  pub positional : Bool
  pub required : Bool
  pub repeatable : Bool
  pub takes_value : Bool
  pub help : Option Text
  pub long : Option Text
  pub short : Option Text
  pub possible_values : List Text
  pub value_name : Option Text
  pub default_value : Option Text
  pub env : Option Text

-- A command, with its name, what it is about, its arguments and its subcommands.
mutual
  pub data Command : Type 0 where
    command : Text → Option Text → List Arg → Commands → Command

  pub data Commands : Type 0 where
    no_more : Commands
    and_command : Command → Commands → Commands

nullable : Option Text → Json
nullable none = Json.null
nullable (some s) = Json.string s

strings : List Text → Elements
strings [] = Elements.stop
strings (s ∷ more) = Elements.item (Json.string s) (strings more)

with_text : Text → Text → Option Text → Fields → Fields
with_text key prefix none fields = fields
with_text key prefix (some s) fields = Fields.field key (Json.string (prefix ++ s)) fields

with_values : List Text → Fields → Fields
unfolding strings
with_values [] fields = fields
with_values (v ∷ values) fields =
    Fields.field (text "values") (Json.array (strings (v ∷ values))) fields

optional_fields : Arg → Fields
unfolding with_text with_values
optional_fields a = with_text (text "long") (text "--") a.long (
    with_text (text "short") (text "-") a.short (
      with_text (text "value_name") [] a.value_name (
        with_values a.possible_values (
          with_text (text "default") [] a.default_value
            (with_text (text "env") [] a.env Fields.close)))))

unfoldable pub describe_arg : Arg → Json
unfolding nullable optional_fields
describe_arg a = Json.object (
    Fields.field (text "name") (Json.string a.id) (
      Fields.field (text "positional") (Json.boolean a.positional) (
        Fields.field (text "required") (Json.boolean a.required) (
          Fields.field (text "repeatable") (Json.boolean a.repeatable) (
            Fields.field (text "takes_value") (Json.boolean a.takes_value)
              (Fields.field (text "help") (nullable a.help) (optional_fields a)))))))

-- Clap's own two arguments are left out.
unfoldable pub is_listed : Arg → Bool
is_listed a = not (text_eq a.id (text "help") || text_eq a.id (text "version"))

describe_args : List Arg → Elements
unfolding describe_arg
describe_args [] = Elements.stop
describe_args (a ∷ args) = Elements.item (describe_arg a) (describe_args args)

command_json : Text → Option Text → Elements → Fields → Json
unfolding nullable
command_json name about args rest = Json.object (
    Fields.field (text "name") (Json.string name) (
      Fields.field (text "about") (nullable about)
        (Fields.field (text "args") (Json.array args) rest)))

unfoldable mutual
  unfolding command_json describe_args

  pub describe : Command → Json
  describe (command name about args subcommands) =
      command_json name about (describe_args (keep is_listed args))
        (describe_subcommands subcommands)

  -- Left out where there are none.
  describe_subcommands : Commands → Fields
  describe_subcommands no_more = Fields.close
  describe_subcommands (and_command c more) =
      Fields.field (text "subcommands")
        (Json.array (Elements.item (describe c) (describe_each more))) Fields.close

  describe_each : Commands → Elements
  describe_each no_more = Elements.stop
  describe_each (and_command c more) = Elements.item (describe c) (describe_each more)

exit_code_fields : List (Text × Text) → Fields
exit_code_fields [] = Fields.close
exit_code_fields ((code, words) ∷ codes) =
    Fields.field code (Json.string words) (exit_code_fields codes)

version_or_unknown : Option Text → Text
version_or_unknown none = text "unknown"
version_or_unknown (some v) = v

name_of : Command → Text
name_of (command name about args subcommands) = name

unfoldable pub dump : (Json → Result Text) → Option Text → Command → Result Text
unfolding exit_code_fields version_or_unknown name_of describe
dump pretty version c = pretty (
    Json.object (
      Fields.field (text "schema_version") (Json.number 1) (
        Fields.field (text "name") (Json.string (name_of c)) (
          Fields.field (text "version") (Json.string (version_or_unknown version)) (
            Fields.field (text "exit_codes") (Json.object (exit_code_fields exit_codes))
              (Fields.field (text "command") (describe c) Fields.close))))))
