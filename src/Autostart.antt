-- ===== src/Autostart.antt =====
-- autostart.rs: handing the daemon to the supervisor of the platform. A run is the steps it took, in
-- order, what it printed, and how it ended; what a command of the supervisor answers is given.
pub mod Steps
pub mod Installing
pub mod Codes
pub mod Systemd
pub mod Launchd
pub mod Tests
use ig.Base.{
  ℕ, Bool, true, false, ◌&&◌, Option, none, some, List, [], ◌∷◌, ◌++◌, map, if◌then◌else◌, is_empty,
  is_some,
}
use ig.Base.Paths.{parent}
use ig.Base.Text.{Text, text}
use ig.Base.Lines.{trim}
use ig.Failure.{Error, Result, ok, err, fail, anyhow, note, not_found, unavailable}
use ig.Console.{Format, Json, Fields, Console, quiet, println, eprintln, eprint}
use ig.Disk.{Disk, Action, unlink, find_file, opened, written}
use ig.Supervisor.{Step, Course, Setting, Plan, then_do, failed, file}

-- `platform`: the module of the operating system that the program is built for.
pub record Platform : Type 0 where
  pub name : Text
  pub unit_path : Result Text
  pub render : Plan → Text
  pub load : Setting → Text → Course
  pub unload : Setting → Text → Course
  pub restart : Setting → Text → Course
  pub is_running : Setting → Bool

pub record Run : Type 0 where
  pub steps : List Step
  pub console : Console
  pub result : Result ℕ

done_fields : Bool → Text → Option Text → Json
done_fields dry_run detail unit = Json.object (
    Fields.field (text "ok") (Json.boolean true) (
      Fields.field (text "dry_run") (Json.boolean dry_run)
        (Fields.field (text "detail") (Json.string detail) (with_unit unit))))
  where
    with_unit : Option Text → Fields
    with_unit none = Fields.close
    with_unit (some unit) = Fields.field (text "unit") (Json.string unit) Fields.close

shown_unit : Option Text → Console → Console
shown_unit none c = c
shown_unit (some unit) c = eprint unit (eprintln [] c)

json_out : Result Text → Console × Result ℕ
json_out (ok t) = (println t quiet, ok 0)
json_out (err e) = (quiet, err e)

unfoldable pub done : Setting → Format → Bool → Text → Option Text → Console × Result ℕ
unfolding shown_unit json_out done_fields
done s Format.text dry_run detail unit =
    (shown_unit unit (eprintln ((if dry_run then text "would: " else []) ++ detail) quiet), ok 0)
done s Format.json dry_run detail unit = json_out (s.pretty (done_fields dry_run detail unit))

refused : List Step → Error → Run
refused steps e = record { steps = steps; console = quiet; result = err e }

-- The report of a course that went well.
reported : Course → Console × Result ℕ → Run
unfolding refused
reported (steps, err e) out = refused steps e
reported (steps, ok _) (c, r) = record { steps = steps; console = c; result = r }

folder_made : Setting → Text → Option Text → Result (Unit {0})
folder_made s path none = err (anyhow (path ++ text " has no parent directory"))
folder_made s path (some dir) = elim s.mkdir [
  | none ↦ ok tt
  | some e ↦ err (note (text "failed to create " ++ dir) ∷ anyhow e)
]

unit_written : Text → List Action × Option Text → Course
unit_written path (actions, none) = (map file actions, ok tt)
unit_written path (actions, some e) =
    (map file actions, err (note (text "failed to write " ++ path) ∷ anyhow e))

-- The folder is created, and the unit written.
unfoldable pub write_unit : Setting → Text → Text → Course
unfolding folder_made unit_written
write_unit s path unit =
    then_do ([], folder_made s path (parent path))
      (unit_written path
        (opened s.default_mode path s.opening (written path unit s.written s.write none)))

install_at : Setting → Platform → Plan → Bool → Format → Text → Run
unfolding reported
install_at s p plan true format path =
    reported ([], ok tt)
      (done s format true (text "write " ++ (path ++ text " and load it")) (some (p.render plan)))
install_at s p plan false format path =
    reported (then_do (write_unit s path (p.render plan)) (p.load s path))
      (done s format false (text "installed " ++ (path ++ text " and started it")) none)

installed : Setting → Platform → Text → List Text → Bool → Format → Result Text → Result Text → Run
unfolding refused install_at
installed s p socket args dry_run format (err e) unit_path =
    refused [] (note (text "cannot locate this binary") ∷ e)
installed s p socket args dry_run format (ok exe) (err e) = refused [] e
installed s p socket args dry_run format (ok exe) (ok path) =
    install_at s p (record { exe = exe; socket = socket; args = args }) dry_run format path

unfoldable pub install : Setting → Platform → Text → List Text → Bool → Format → Run
unfolding installed
install s p socket args dry_run format = installed s p socket args dry_run format s.exe p.unit_path

unit_removed : Text → Option Text → Course
unit_removed path none = (file (unlink path) ∷ [], ok tt)
unit_removed path (some e) = ([], err (note (text "failed to remove " ++ path) ∷ anyhow e))

uninstall_at : Setting → Platform → Bool → Format → Text → Bool → Run
unfolding refused reported unit_removed
uninstall_at s p dry_run format path false =
    refused [] (fail not_found (text "nothing installed at " ++ path))
uninstall_at s p true format path true =
    reported ([], ok tt) (done s format true (text "stop it and remove " ++ path) none)
uninstall_at s p false format path true =
    reported (then_do (p.unload s path) (unit_removed path s.unlinking))
      (done s format false (text "removed " ++ path) none)

uninstalled : Setting → Platform → Bool → Format → Disk → Result Text → Run
unfolding refused uninstall_at
uninstalled s p dry_run format disk (err e) = refused [] e
uninstalled s p dry_run format disk (ok path) =
    uninstall_at s p dry_run format path (is_some (find_file path disk))

unfoldable pub uninstall : Setting → Platform → Bool → Format → Disk → Run
unfolding uninstalled
uninstall s p dry_run format disk = uninstalled s p dry_run format disk p.unit_path

restart_at : Setting → Platform → Bool → Format → Text → Bool → Run
unfolding refused reported
restart_at s p dry_run format path false =
    refused [] (
      fail not_found
        (text "nothing installed at " ++ (path ++ text "; run `ig autostart install`")))
restart_at s p true format path true =
    reported ([], ok tt) (done s format true (text "restart the supervised daemon") none)
restart_at s p false format path true =
    reported (p.restart s path) (done s format false (text "restarted") none)

restarted : Setting → Platform → Bool → Format → Disk → Result Text → Run
unfolding refused restart_at
restarted s p dry_run format disk (err e) = refused [] e
restarted s p dry_run format disk (ok path) =
    restart_at s p dry_run format path (is_some (find_file path disk))

unfoldable pub restart : Setting → Platform → Bool → Format → Disk → Run
unfolding restarted
restart s p dry_run format disk = restarted s p dry_run format disk p.unit_path

state_words : Bool → Bool → Text
state_words false running = text "not installed"
state_words true false = text "installed, not running"
state_words true true = text "running"

status_json : Platform → Text → Bool → Bool → Json
status_json p path installed running = Json.object (
    Fields.field (text "supervisor") (Json.string p.name) (
      Fields.field (text "unit") (Json.string path) (
        Fields.field (text "installed") (Json.boolean installed)
          (Fields.field (text "running") (Json.boolean running) Fields.close))))

status_out : Setting → Platform → Format → Text → Bool → Bool → Console × Result ℕ
unfolding state_words status_json json_out
status_out s p Format.json path installed running =
    json_out (s.pretty (status_json p path installed running))
status_out s p Format.text path installed running = (
  println (text "state       " ++ state_words installed running)
      (println (text "unit        " ++ path) (println (text "supervisor  " ++ p.name) quiet)),
  ok 0,
)

status_at : Setting → Platform → Format → Disk → Result Text → Run
unfolding refused reported status_out
status_at s p format disk (err e) = refused [] e
status_at s p format disk (ok path) =
    let installed = is_some (find_file path disk) in
    reported ([], ok tt) (status_out s p format path installed (installed && p.is_running s))

-- Asking the supervisor is not a step.
unfoldable pub status : Setting → Platform → Format → Disk → Run
unfolding status_at
status s p format disk = status_at s p format disk p.unit_path
