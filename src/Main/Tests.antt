-- ===== src/Main/Tests.antt =====
-- main.rs: samples.
use ig.Base.{false, none, some, [], inl}
use ig.Base.Text.{text}
use ig.Console.{Format}
use ig.Schema
use ig.Cli.{Cli, Command}
use ig.Client.Tests.{surroundings}
use ig.Upgrade.Tests.{site}
use ig.Autostart.Tests.{setting}
use ig.Autostart.Systemd.{platform}
use ig.Daemon.Commands.Tests.{host, daemon}
use ig.Daemon.Run.Tests.{boot}
use ig.Daemon.Socket.{dead}
use ig.Client.Answered.{socket_of}
use ig.Main.{Outside, unread, main}
use ig.Main.Codes.{Proper, main-Proper}

abbrev outside : Outside
outside = record {
  surroundings = surroundings;
  socket = socket_of host surroundings daemon;
  site = site;
  setting = setting;
  platform = platform none (some (text "/h"));
  host = host;
  boot = boot;
  control_socket = dead;
  disk = [];
  read_to_string = λ path. inl path;
  version = none;
  command_tree = Schema.Command.command (text "ig") none [] Schema.Commands.no_more;
  help = text "usage";
  stdout = unread;
  completion = λ shell. shell;
}

abbrev cli : Cli
cli = record {
  socket = text "ig.sock";
  format = Format.text;
  quiet = false;
  dump_schema = false;
  command = some Command.id;
}

main-Proper_example : Proper unread (main outside cli)
main-Proper_example = main-Proper outside cli
