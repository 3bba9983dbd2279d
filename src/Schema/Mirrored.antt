-- ===== src/Schema/Mirrored.antt =====
-- schema.rs: what can be read back from the printed tree.
use ig.Base.{
  Bool, not, ◌&&◌, arith, Bool-cases, inl, inr, ◌≡◌, refl, ap, ◌∙◌, Option, List, [], ◌∷◌,
  if◌then◌else◌, keep, map,
}
use ig.Base.Text.{Text, text, text_eq}
use ig.Console.{Json, Elements, Fields}
use ig.Schema.{
  Arg, Command, Commands, describe, describe_arg, describe_args, is_listed, command_json,
  describe_subcommands, describe_each,
}

-- The names of a tree of commands and of their arguments.
mutual
  pub data Outline : Type 0 where
    outline : Text → List Text → Outlines → Outline

  pub data Outlines : Type 0 where
    last : Outlines
    next : Outline → Outlines → Outlines

root : Outline → Text
root (outline name args subcommands) = name

roots : Outlines → List Text
unfolding root
roots last = []
roots (next o more) = root o ∷ roots more

string_of : Json → Text
string_of Json.null = []
string_of (Json.boolean b) = []
string_of (Json.number n) = []
string_of (Json.string s) = s
string_of (Json.array items) = []
string_of (Json.object fields) = []

with_name : Text → Outline → Outline
with_name name (outline old args subcommands) = outline name args subcommands

with_args : List Text → Outline → Outline
with_args args (outline name old subcommands) = outline name args subcommands

with_subcommands : Outlines → Outline → Outline
with_subcommands subcommands (outline name args old) = outline name args subcommands

-- What a field says: its value as a text, and as an array of things that have names.
placed : Text → Text → Outlines → Outline → Outline
unfolding with_name with_args with_subcommands roots
placed key name items o =
    if text_eq key (text "name")
    then with_name name o
    else if text_eq key (text "args")
    then with_args (roots items) o
    else if text_eq key (text "subcommands")
    then with_subcommands items o
    else o

-- A reader of the printed tree, which looks at the names of the fields and not at their order.
unfoldable mutual
  unfolding placed string_of

  pub read : Json → Outline
  read Json.null = outline [] [] last
  read (Json.boolean b) = outline [] [] last
  read (Json.number n) = outline [] [] last
  read (Json.string s) = outline [] [] last
  read (Json.array items) = outline [] [] last
  read (Json.object fields) = read_fields fields

  pub read_fields : Fields → Outline
  read_fields Fields.close = outline [] [] last
  read_fields (Fields.field key value more) =
      placed key (string_of value) (read_items value) (read_fields more)

  pub read_items : Json → Outlines
  read_items Json.null = last
  read_items (Json.boolean b) = last
  read_items (Json.number n) = last
  read_items (Json.string s) = last
  read_items (Json.array items) = read_elements items
  read_items (Json.object fields) = last

  pub read_elements : Elements → Outlines
  read_elements Elements.stop = last
  read_elements (Elements.item value more) = next (read value) (read_elements more)

-- An argument of the program's own: clap adds `help` and `version` to every command.
abbrev is_own : Arg → Bool
is_own a = not (text_eq a.id (text "help")) && not (text_eq a.id (text "version"))

is_listed-own : (a : Arg) → is_listed a ≡ is_own a
unfolding is_listed
is_listed-own a = ground arith

own_ids : List Arg → List Text
own_ids [] = []
own_ids (a ∷ args) = if is_own a then a.id ∷ own_ids args else own_ids args

keep-own_ids : (args : List Arg) → map (λ a. a.id) (keep is_listed args) ≡ own_ids args
unfolding own_ids keep
keep-own_ids [] = refl
keep-own_ids (a ∷ args) = elim (Bool-cases (is_own a)) [
  | inl e ↦ rw (is_listed-own a, e) (ap (λ ids. a.id ∷ ids) (keep-own_ids args))
  | inr e ↦ rw (is_listed-own a, e) (keep-own_ids args)
]

-- What there is to read: every command at every depth, and every argument that is not clap's own.
unfoldable mutual
  unfolding own_ids

  pub outlined : Command → Outline
  outlined (Command.command name about args subcommands) =
      outline name (own_ids args) (outlined_each subcommands)

  pub outlined_each : Commands → Outlines
  outlined_each Commands.no_more = last
  outlined_each (Commands.and_command c more) = next (outlined c) (outlined_each more)

root-placed :
    (name : Text) (items : Outlines) (o : Outline) → root (placed (text "name") name items o) ≡ name
unfolding placed root with_name text text_eq
root-placed name items (outline old args subcommands) = refl

root-describe_arg : (a : Arg) → root (read (describe_arg a)) ≡ a.id
unfolding read describe_arg string_of
root-describe_arg a = root-placed a.id last _

roots-describe_args :
    (args : List Arg) → roots (read_elements (describe_args args)) ≡ map (λ a. a.id) args
unfolding read describe_args roots
roots-describe_args [] = refl
roots-describe_args (a ∷ args) =
    ap (λ name. name ∷ roots (read_elements (describe_args args))) (root-describe_arg a)
    ∙ ap (λ names. a.id ∷ names) (roots-describe_args args)

read-command_json :
    (name : Text) (about : Option Text) (args : Elements) (rest : Fields) (subcommands : Outlines)
    → read_fields rest ≡ outline [] [] subcommands
    → read (command_json name about args rest)
      ≡ outline name (roots (read_elements args)) subcommands
unfolding read command_json placed with_name with_args with_subcommands text text_eq
read-command_json name about args rest subcommands h = rw h refl

mutual
  unfolding read describe outlined placed with_subcommands text text_eq

  read_back : (c : Command) → read (describe c) ≡ outlined c
  read_back (Command.command name about args subcommands) =
      read-command_json name about (describe_args (keep is_listed args))
        (describe_subcommands subcommands) (outlined_each subcommands)
        (read_back_subcommands subcommands)
      ∙ ap (λ ids. outline name ids (outlined_each subcommands))
          (roots-describe_args (keep is_listed args) ∙ keep-own_ids args)

  read_back_subcommands :
      (cs : Commands) → read_fields (describe_subcommands cs) ≡ outline [] [] (outlined_each cs)
  read_back_subcommands Commands.no_more = refl
  read_back_subcommands (Commands.and_command c more) =
      ap (λ o. outline [] [] (next o (read_elements (describe_each more)))) (read_back c)
      ∙ ap (λ os. outline [] [] (next (outlined c) os)) (read_back_each more)

  read_back_each : (cs : Commands) → read_elements (describe_each cs) ≡ outlined_each cs
  read_back_each Commands.no_more = refl
  read_back_each (Commands.and_command c more) =
      ap (λ o. next o (read_elements (describe_each more))) (read_back c)
      ∙ ap (λ os. next (outlined c) os) (read_back_each more)

-- From the printed tree one reads back the name of every command at every depth, and with it the name
-- of each of its arguments but `help` and `version`, in their order.
pub read-describe : (c : Command) → read (describe c) ≡ outlined c
read-describe c = read_back c
