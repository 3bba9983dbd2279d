-- ===== src/Main.antt =====
-- main.rs, `run` and `main`: which part a command goes to, and how the process ends. What clap prints
-- is other code.
pub mod Codes
mod Tests
use ig.Base.{
  ℕ, ◌≡◌, Bool, true, false, Option, none, some, List, [], ◌∷◌, ◌++◌, ◌⊎◌, inl, inr, is_empty,
  if◌then◌else◌,
}
use ig.Base.Text.{Text, text}
use ig.Failure.{Error, Result, ok, err, kind_of, render, exit_code, invalid, ◌>>=◌}
use ig.Console.{Format, Console, quiet, print, println, eprintln}
use ig.Disk.{Disk}
use ig.Cli.{Cli, Command, AutostartCmd, DaemonArgs, read_token}
use ig.Client
use ig.Client.{Surroundings, Socket}
use ig.Schema
use ig.Schema.{dump}
use ig.Upgrade
use ig.Release.{Site}
use ig.Autostart
use ig.Autostart.{Platform}
use ig.Supervisor.{Setting}
use ig.Daemon.{Daemon, Host, ticket}
use ig.Daemon.Socket.{Endpoint}
use ig.Daemon.Run
use ig.Daemon.Run.{Boot, Options, Startup}

-- What a write to stdout meets: a reader, a pipe that nobody reads from any more, or an error.
pub data Stdout : Type 0 where
  drained : Stdout
  unread : Stdout
  failing : Error → Stdout

-- All that the commands meet outside the process.
pub record Outside : Type 0 where
  pub surroundings : Surroundings
  pub socket : Socket
  pub site : Site
  pub setting : Setting
  pub platform : Platform
  pub host : Host
  pub boot : Boot
  pub control_socket : Endpoint
  pub disk : Disk
  pub read_to_string : Text → Text ⊎ Text
  pub version : Option Text
  pub command_tree : Schema.Command
  pub help : Text
  pub stdout : Stdout
  pub completion : Text → Text

-- How `run` goes on: it returns, the daemon serves until its listener fails, or it panics.
pub data Course : Type 0 where
  returns : Console → Result ℕ → Course
  serves : Console → Daemon → Course
  panics : Course

dumped : Result Text → Course
dumped (err e) = returns quiet (err e)
dumped (ok t) = returns (println t quiet) (ok 0)

-- An error while the help is written is returned, where `println!` panics.
helped : Stdout → Text → Course
helped (failing e) t = returns quiet (err e)
helped drained t = returns (print t quiet) (ok (exit_code invalid))
helped unread t = returns (print t quiet) (ok (exit_code invalid))

-- `--enroll-file`, or `--enroll`.
enroll_token : (Text → Text ⊎ Text) → DaemonArgs → Option Text → Result (Option Text)
enroll_token read args none = ok args.enroll
enroll_token read args (some path) = do token ← read_token path (read path); ok (some token)

options : DaemonArgs → Option Text → Options
options args enroll = record {
  host = args.host;
  peers = args.peers;
  ports = args.ports;
  key_path = args.key_path;
  enroll = enroll;
  binds = args.binds;
  service_configs = args.services;
}

serving : Host → Result Daemon → Course
serving h (err e) = returns quiet (err e)
serving h (ok d) = serves (println (text "Ticket: " ++ ticket h.world d) quiet) d

daemon_run : Outside → Text → DaemonArgs → Result (Option Text) → Course
unfolding serving options
daemon_run o socket args (err e) = returns quiet (err e)
daemon_run o socket args (ok enroll) =
    serving o.host
      (Run.run o.host o.boot socket (options args enroll) o.control_socket o.disk).daemon

autostart_run : Outside → Text → Format → AutostartCmd → Autostart.Run
autostart_run o socket format (AutostartCmd.install args dry_run) =
    Autostart.install o.setting o.platform socket args dry_run format
autostart_run o socket format (AutostartCmd.uninstall dry_run) =
    Autostart.uninstall o.setting o.platform dry_run format o.disk
autostart_run o socket format (AutostartCmd.restart dry_run) =
    Autostart.restart o.setting o.platform dry_run format o.disk
autostart_run o socket format AutostartCmd.status =
    Autostart.status o.setting o.platform format o.disk

client_course : Option (Console × Result ℕ) → Course
client_course none = panics
client_course (some (console, result)) = returns console result

autostart_course : Autostart.Run → Course
autostart_course r = returns r.console r.result

upgrade_course : Upgrade.Run → Course
upgrade_course r = returns r.console r.result

other : Outside → Text → Format → Bool → Command → Course
unfolding client_course
other o socket format is_quiet command =
    client_course (Client.run o.surroundings socket o.socket command format is_quiet)

dispatch : Outside → Text → Format → Bool → Command → Course
unfolding daemon_run autostart_run autostart_course upgrade_course other enroll_token
dispatch o socket format is_quiet (Command.completion shell) =
    returns (print (o.completion shell) quiet) (ok 0)
dispatch o socket format is_quiet (Command.daemon args) =
    daemon_run o socket args (enroll_token o.read_to_string args args.enroll_file)
dispatch o socket format is_quiet (Command.autostart cmd) =
    autostart_course (autostart_run o socket format cmd)
dispatch o socket format is_quiet (Command.upgrade dry_run) =
    upgrade_course (Upgrade.run o.site dry_run format)
dispatch o socket format is_quiet Command.id = other o socket format is_quiet Command.id
dispatch o socket format is_quiet Command.status = other o socket format is_quiet Command.status
dispatch o socket format is_quiet (Command.peer cmd) =
    other o socket format is_quiet (Command.peer cmd)
dispatch o socket format is_quiet (Command.port cmd) =
    other o socket format is_quiet (Command.port cmd)

commanded : Outside → Cli → Option Command → Course
unfolding dispatch helped
commanded o cli none = helped o.stdout o.help
commanded o cli (some command) = dispatch o cli.socket cli.format cli.quiet command

unfoldable pub run : Outside → Cli → Course
unfolding commanded dumped
run o cli =
    if cli.dump_schema
    then dumped (dump o.surroundings.pretty o.version o.command_tree)
    else commanded o cli cli.command

-- How the process ends.
pub data Ending : Type 0 where
  exits : Console → ℕ → Ending
  serves_on : Console → Daemon → Ending
  aborts : Ending
  killed : ℕ → Ending

-- The signal that a write to a pipe without a reader raises, at its default disposition.
abbrev pub sigpipe : ℕ
sigpipe = 13

-- The first write to stdout ends the process where nobody reads it, or with a panic where it fails.
written : Stdout → Console → Ending → Ending
written drained c e = e
written unread c e = if is_empty c.stdout then e else killed sigpipe
written (failing x) c e = if is_empty c.stdout then e else aborts

ended : Stdout → Course → Ending
unfolding written
ended s (returns c (ok code)) = written s c (exits c code)
ended s (returns c (err e)) =
    written s c (exits (eprintln (text "error: " ++ render e) c) (exit_code (kind_of e)))
ended s (serves c d) = written s c (serves_on c d)
ended s panics = aborts

unfoldable pub main : Outside → Cli → Ending
unfolding ended
main o cli = ended o.stdout (run o cli)
