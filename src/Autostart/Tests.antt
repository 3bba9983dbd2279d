-- ===== src/Autostart/Tests.antt =====
-- autostart.rs: samples.
use ig.Base.{◌≡◌, refl, false, none, some, [], ◌∷◌}
use ig.Base.Paths.{join}
use ig.Base.Text.{Text, text}
use ig.Failure.{ok}
use ig.Console.{Format}
use ig.Disk.{Disk}
use ig.Autostart.{install, uninstall}
use ig.Supervisor.{Setting, Plan, succeeded, argv}
use ig.Autostart.Steps.{Removed, uninstall-Removed}
use ig.Autostart.Installing.{Installed, install-Installed}
use ig.Autostart.Systemd.{platform, unit_path, quote, exec_line, replace, all_plain, is_plain}
use ig.Autostart.Systemd.Quoting.{scan, blank}
use ig.Autostart.Systemd.Exec.{exec_line-read}
use ig.Autostart.Systemd.Commands.{platform-OnlyCommands}

abbrev pub setting : Setting
setting = record {
  exe = ok (text "/bin/ig");
  command = λ program args. succeeded;
  pretty = λ j. ok (text "{}");
  mkdir = none;
  opening = none;
  written = 0;
  write = none;
  unlinking = none;
  default_mode = 0o644;
}

abbrev unit : Text
unit = text "/h/.config/systemd/user/ig.service"

unit_path_test : unit_path none (some (text "/h")) ≡ ok unit
unfolding unit_path join text
unit_path_test = refl

quote_test : quote (text "my \"x\"") ≡ text "\"my \\\"x\\\"\""
unfolding quote text all_plain is_plain replace
quote_test = refl

abbrev plan : Plan
plan = record {
  exe = text "/bin/ig";
  socket = text "/tmp/ig.sock";
  args = text "--service" ∷ text "/home/me/my services.toml" ∷ [];
}

exec_line-read_example : scan blank (exec_line plan) ≡ some (argv plan)
unfolding text argv
exec_line-read_example = exec_line-read plan (refl, (refl, (refl, (refl, (refl, (refl, tt))))))

abbrev disk : Disk
disk = (unit, record { content = []; mode = 0o644 }) ∷ []

uninstall-Removed_example :
    let r = uninstall setting (platform none (some (text "/h"))) false Format.text disk in
    Removed setting (platform none (some (text "/h"))) false unit disk r.steps r.result
unfolding platform
uninstall-Removed_example =
    uninstall-Removed setting (platform none (some (text "/h"))) false Format.text unit disk
      (platform-OnlyCommands none (some (text "/h"))) (λ j. (text "{}", refl)) unit_path_test

install-Installed_example :
    let r = install setting (platform none (some (text "/h"))) (text "s") [] false Format.json in
    Installed setting
      (platform none (some (text "/h")))
      (record { exe = text "/bin/ig"; socket = text "s"; args = [] })
      false
      unit
      []
      r.steps
      r.result
unfolding platform
install-Installed_example =
    install-Installed setting (platform none (some (text "/h"))) (text "s") [] false Format.json
      (text "/bin/ig") unit [] (platform-OnlyCommands none (some (text "/h")))
      (λ j. (text "{}", refl)) refl unit_path_test
