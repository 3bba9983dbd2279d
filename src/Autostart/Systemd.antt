-- ===== src/Autostart/Systemd.antt =====
-- autostart.rs, `platform` for Linux: systemd.
pub mod Quoting
pub mod Exec
pub mod Commands
use ig.Base.{
  ℕ, ◌≡◌, Bool, true, false, not, ◌&&◌, ◌||◌, Option, none, some, List, [], ◌∷◌, ◌++◌, ◌==◌, leb,
  map, if◌then◌else◌, is_empty, contains,
}
use ig.Base.Paths.{join, is_absolute}
use ig.Base.Text.{Text, text}
use ig.Failure.{Result, ok, err, anyhow}
use ig.Autostart.{Platform}
use ig.Supervisor.{
  Setting, Plan, Course, Ended, unrun, failed, succeeded, argv, join_words, run_command, then_do,
}

abbrev pub name : Text
name = text "systemd (user)"

abbrev pub unit : Text
unit = text "ig.service"

absolute : Option Text → Option Text
absolute none = none
absolute (some path) = if is_absolute path then some path else none

config_home : Option Text → Option Text → Result Text
config_home (some dir) home = ok dir
config_home none (some home) = ok (join home (text ".config"))
config_home none none = err (anyhow (text "neither XDG_CONFIG_HOME nor HOME is set"))

under : Result Text → Result Text
under (err e) = err e
under (ok base) = ok (join (join base (text "systemd/user")) unit)

-- From the variables XDG_CONFIG_HOME and HOME.
unfoldable pub unit_path : Option Text → Option Text → Result Text
unfolding absolute config_home under
unit_path xdg home = under (config_home (absolute xdg) home)

-- `s.replace(c, to)`, of one character.
unfoldable pub replace : ℕ → Text → Text → Text
replace c to [] = []
replace c to (d ∷ ds) = let rest = replace c to ds in if d == c then to ++ rest else d ∷ rest

-- A character of a word that needs no quotes.
unfoldable pub is_plain : ℕ → Bool
is_plain c =
    (leb 48 c && leb c 57)
    || (leb 65 c && leb c 90)
    || (leb 97 c && leb c 122)
    || c == 45
    || c == 95
    || c == 46
    || c == 47
    || c == 58
    || c == 61
    || c == 44
    || c == 64
    || c == 43

unfoldable pub all_plain : Text → Bool
all_plain [] = true
all_plain (c ∷ cs) = is_plain c && all_plain cs

unfoldable pub quote : Text → Text
unfolding all_plain replace
quote arg =
    if not (is_empty arg) && all_plain arg
    then arg
    else 34 ∷ (replace 34 (92 ∷ 34 ∷ []) (replace 92 (92 ∷ 92 ∷ []) arg) ++ 34 ∷ [])

unfoldable pub exec_line : Plan → Text
exec_line plan = join_words (map quote (argv plan))

abbrev pub before_exec : Text
before_exec =
    text "# Generated by `ig autostart install`. Edit freely; `install` again\n"
    ++ (text "# to regenerate from the current arguments.\n"
        ++ (text "[Unit]\n"
            ++ (text "Description=ig\n"
                ++ (text "Documentation=https://github.com/Lincyaw/ig\n"
                    ++ (text "After=network-online.target\n"
                        ++ (text "Wants=network-online.target\n"
                            ++ (text "\n"
                                ++ (text "[Service]\n"
                                    ++ (text
                                          "# Not Type=forking: ig stays in the foreground so systemd tracks\n"
                                        ++ (text
                                              "# the process it started rather than guessing at a pidfile.\n"
                                            ++ text "Type=simple\n"))))))))))

abbrev pub after_exec : Text
after_exec =
    text "Restart=always\n"
    ++ (text "RestartSec=5\n"
        ++ (text "# The journal rotates. A redirected file does not.\n"
            ++ (text "StandardOutput=journal\n"
                ++ (text "StandardError=journal\n"
                    ++ (text "\n" ++ (text "[Install]\n" ++ text "WantedBy=default.target\n"))))))

unfoldable pub render : Plan → Text
render plan = before_exec ++ (text "ExecStart=" ++ (exec_line plan ++ (text "\n" ++ after_exec)))

abbrev pub load_plan : List (List Text)
load_plan =
    (text "--user" ∷ text "daemon-reload" ∷ [])
    ∷ (text "--user" ∷ text "enable" ∷ unit ∷ [])
    ∷ (text "--user" ∷ text "restart" ∷ unit ∷ [])
    ∷ []

abbrev pub systemctl : Text
systemctl = text "systemctl"

run_plan : Setting → List (List Text) → Course
run_plan s [] = ([], ok tt)
run_plan s (args ∷ plan) = then_do (run_command s systemctl args) (run_plan s plan)

unfoldable pub load : Setting → Text → Course
unfolding run_plan
load s path = run_plan s load_plan

unfoldable pub unload : Setting → Text → Course
unload s path = run_command s systemctl (text "--user" ∷ text "disable" ∷ text "--now" ∷ unit ∷ [])

unfoldable pub restart : Setting → Text → Course
restart s path = run_command s systemctl (text "--user" ∷ text "restart" ∷ unit ∷ [])

success : Ended → Bool
success succeeded = true
success (failed e) = false
success (unrun e) = false

unfoldable pub is_running : Setting → Bool
unfolding success
is_running s =
    success (s.command systemctl (text "--user" ∷ text "is-active" ∷ text "--quiet" ∷ unit ∷ []))

unfoldable pub platform : Option Text → Option Text → Platform
platform xdg home = record {
  name = name;
  unit_path = unit_path xdg home;
  render = render;
  load = load;
  unload = unload;
  restart = restart;
  is_running = is_running;
}
