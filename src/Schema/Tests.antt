-- ===== src/Schema/Tests.antt =====
-- schema.rs: samples.
use ig.Base.{◌≡◌, false, none, some, [], ◌∷◌}
use ig.Base.Text.{Text, text}
use ig.Schema.{Arg, Command, Commands, describe}
use ig.Schema.Mirrored.{read, outlined, read-describe}

abbrev flag : Text → Arg
flag id = record {
  id = id;
  positional = false;
  required = false;
  repeatable = false;
  takes_value = false;
  help = some (text "what it does");
  long = some id;
  short = none;
  possible_values = text "text" ∷ text "json" ∷ [];
  value_name = none;
  default_value = some (text "text");
  env = none;
}

abbrev peer : Command
peer = Command.command (text "peer") none (flag (text "help") ∷ []) Commands.no_more

abbrev root : Command
root =
    Command.command (text "ig") (some (text "ports"))
      (flag (text "quiet") ∷ flag (text "help") ∷ []) (Commands.and_command peer Commands.no_more)

read-describe_example : read (describe root) ≡ outlined root
read-describe_example = read-describe root
