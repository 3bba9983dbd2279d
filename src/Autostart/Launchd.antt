-- ===== src/Autostart/Launchd.antt =====
-- autostart.rs, `platform` for macOS: launchd.
pub mod Escaping
pub mod Commands
use ig.Base.{Bool, true, false, Option, none, some, List, [], ◌∷◌, ◌++◌}
use ig.Base.Paths.{join}
use ig.Base.Text.{Text, text}
use ig.Failure.{Result, ok, err, anyhow}
use ig.Autostart.{Platform}
use ig.Supervisor.{Setting, Plan, Course, Ended, unrun, failed, succeeded, argv, run_command}
use ig.Autostart.Systemd.{replace}

abbrev pub name : Text
name = text "launchd (LaunchAgent)"

abbrev pub label : Text
label = text "com.github.lincyaw.ig"

unfoldable pub unit_path : Option Text → Result Text
unit_path none = err (anyhow (text "HOME is not set"))
unit_path (some home) = ok (join (join home (text "Library/LaunchAgents")) (label ++ text ".plist"))

unfoldable pub escape : Text → Text
escape s = replace b'\'' (text "&apos;") (
    replace b'"' (text "&quot;")
      (replace b'>' (text "&gt;") (replace b'<' (text "&lt;") (replace b'&' (text "&amp;") s))))

-- One element of the array of arguments.
string_line : Text → Text
unfolding escape
string_line a = text "    <string>" ++ (escape a ++ text "</string>\n")

string_lines : List Text → Text
unfolding string_line
string_lines [] = []
string_lines (a ∷ args) = string_line a ++ string_lines args

abbrev pub before_args : Text
before_args =
    text "<?xml version=\"1.0\" encoding=\"UTF-8\"?>\n"
    ++ (text "<!-- Generated by `ig autostart install`. Edit freely; `install`\n"
        ++ (text "     again to regenerate from the current arguments. -->\n"
            ++ (text "<plist version=\"1.0\">\n"
                ++ (text "<dict>\n"
                    ++ (text "  <key>Label</key>\n"
                        ++ (text "  <string>"
                            ++ (label
                                ++ (text "</string>\n"
                                    ++ (text "  <key>ProgramArguments</key>\n"
                                        ++ text "  <array>\n")))))))))

abbrev pub after_args : Text
after_args =
    text "  </array>\n"
    ++ (text "  <key>RunAtLoad</key>\n"
        ++ (text "  <true/>\n"
            ++ (text "  <key>KeepAlive</key>\n"
                ++ (text "  <true/>\n"
                    ++ (text "  <!-- launchd does not rotate these. Point them somewhere\n"
                        ++ (text "       newsyslog manages if the size matters. -->\n"
                            ++ (text "  <key>StandardOutPath</key>\n"
                                ++ (text "  <string>/tmp/ig.log</string>\n"
                                    ++ (text "  <key>StandardErrorPath</key>\n"
                                        ++ (text "  <string>/tmp/ig.log</string>\n"
                                            ++ (text "</dict>\n" ++ text "</plist>\n")))))))))))

unfoldable pub render : Plan → Text
unfolding string_lines
render plan = before_args ++ (string_lines (argv plan) ++ after_args)

abbrev pub launchctl : Text
launchctl = text "launchctl"

-- The result of the first is ignored.
after_attempt : Course → Course → Course
after_attempt (steps, ignored) (more, r) = (steps ++ more, r)

unfoldable pub load : Setting → Text → Course
unfolding after_attempt
load s path =
    after_attempt (run_command s launchctl (text "unload" ∷ path ∷ []))
      (run_command s launchctl (text "load" ∷ text "-w" ∷ path ∷ []))

unfoldable pub unload : Setting → Text → Course
unload s path = run_command s launchctl (text "unload" ∷ text "-w" ∷ path ∷ [])

unfoldable pub restart : Setting → Text → Course
unfolding after_attempt
restart s path =
    after_attempt (run_command s launchctl (text "unload" ∷ path ∷ []))
      (run_command s launchctl (text "load" ∷ path ∷ []))

success : Ended → Bool
success succeeded = true
success (failed e) = false
success (unrun e) = false

unfoldable pub is_running : Setting → Bool
unfolding success
is_running s = success (s.command launchctl (text "list" ∷ label ∷ []))

unfoldable pub platform : Option Text → Platform
platform home = record {
  name = name;
  unit_path = unit_path home;
  render = render;
  load = load;
  unload = unload;
  restart = restart;
  is_running = is_running;
}
