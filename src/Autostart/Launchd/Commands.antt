-- ===== src/Autostart/Launchd/Commands.antt =====
-- autostart.rs, launchd: the commands that its functions run.
use ig.Base.{Option}
use ig.Base.Text.{Text}
use ig.Supervisor.{run_command}
use ig.Autostart.Steps.{OnlyCommands}
use ig.Autostart.Launchd.{platform, load, unload, after_attempt}

pub platform-OnlyCommands : (home : Option Text) → OnlyCommands (platform home)
unfolding platform load unload after_attempt run_command
platform-OnlyCommands home = record {
  loads = λ s path. (tt, (tt, tt));
  unloads = λ s path. (tt, tt);
}
