-- ===== src/Main/Codes.antt =====
-- main.rs: the exit codes of the process.
use ig.Base.{
  ◌≡◌, refl, [], ◌++◌, is_empty, Bool-cases, inl, inr, ◌∷◌, ℕ, Bool, true, false, Option, none,
  some, if◌then◌else◌,
}
use ig.Base.Text.{Text, text}
use ig.Failure.{Error, Result, ok, err, kind_of, render, invalid}
use ig.Console.{Format, Console, eprintln}
use ig.Schema.{dump}
use ig.Schema.Codes.{Published, PublishedResult, zero-Published, kind-Published}
use ig.Cli.{Cli, Command, AutostartCmd, DaemonArgs}
use ig.Daemon.{Daemon}
use ig.Client.Codes.{Fine, IsClient, run-Fine}
use ig.Upgrade.Codes.{run-Published}
use ig.Autostart.Codes.{install-Published, uninstall-Published, restart-Published, status-Published}
use ig.Main.{
  Outside, Course, returns, serves, panics, run, dumped, helped, commanded, dispatch, daemon_run,
  serving, autostart_run, autostart_course, upgrade_course, other, client_course, Ending, exits,
  serves_on, aborts, killed, ended, main, written, Stdout, drained, unread, failing,
}

is_empty-nil : (t : Text) → is_empty t ≡ true → t ≡ []
is_empty-nil [] h = refl
is_empty-nil (x ∷ t) h = cc

-- A course that ends well or with an error, and not with a panic.
abbrev Fair : Course → Type 0
Fair (returns c r) = PublishedResult r
Fair (serves c d) = Unit {0}
Fair panics = ⊥

dumped-Fair : (r : Result Text) → Fair (dumped r)
unfolding dumped
dumped-Fair (ok t) = zero-Published
dumped-Fair (err e) = tt

helped-Fair : (s : Stdout) (t : Text) → Fair (helped s t)
unfolding helped
helped-Fair drained t = kind-Published invalid
helped-Fair unread t = kind-Published invalid
helped-Fair (failing e) t = tt

serving-Fair : (o : Outside) (r : Result Daemon) → Fair (serving o.host r)
unfolding serving
serving-Fair o (ok d) = tt
serving-Fair o (err e) = tt

daemon_run-Fair :
    (o : Outside) (socket : Text) (args : DaemonArgs) (r : Result (Option Text))
    → Fair (daemon_run o socket args r)
unfolding daemon_run
daemon_run-Fair o socket args (err e) = tt
daemon_run-Fair o socket args (ok enroll) = serving-Fair o _

autostart-Fair :
    (o : Outside) (socket : Text) (format : Format) (cmd : AutostartCmd)
    → PublishedResult (autostart_run o socket format cmd).result
unfolding autostart_run
autostart-Fair o socket format (AutostartCmd.install args dry_run) =
    install-Published o.setting o.platform socket args dry_run format
autostart-Fair o socket format (AutostartCmd.uninstall dry_run) =
    uninstall-Published o.setting o.platform dry_run format o.disk
autostart-Fair o socket format (AutostartCmd.restart dry_run) =
    restart-Published o.setting o.platform dry_run format o.disk
autostart-Fair o socket format AutostartCmd.status =
    status-Published o.setting o.platform format o.disk

client_course-Fair : (r : Option (Console × Result ℕ)) → Fine r → Fair (client_course r)
unfolding client_course
client_course-Fair none f = f
client_course-Fair (some (console, result)) f = f

other-Fair :
    (o : Outside) (socket : Text) (format : Format) (is_quiet : Bool) (command : Command)
    → IsClient command
    → Fair (other o socket format is_quiet command)
unfolding other
other-Fair o socket format is_quiet command h =
    client_course-Fair _ (run-Fine o.surroundings socket o.socket command format is_quiet h)

dispatch-Fair :
    (o : Outside) (socket : Text) (format : Format) (is_quiet : Bool) (command : Command)
    → Fair (dispatch o socket format is_quiet command)
unfolding dispatch autostart_course upgrade_course
dispatch-Fair o socket format is_quiet (Command.completion shell) = zero-Published
dispatch-Fair o socket format is_quiet (Command.daemon args) = daemon_run-Fair o socket args _
dispatch-Fair o socket format is_quiet (Command.autostart cmd) = autostart-Fair o socket format cmd
dispatch-Fair o socket format is_quiet (Command.upgrade dry_run) =
    run-Published o.site dry_run format
dispatch-Fair o socket format is_quiet Command.id =
    other-Fair o socket format is_quiet Command.id tt
dispatch-Fair o socket format is_quiet Command.status =
    other-Fair o socket format is_quiet Command.status tt
dispatch-Fair o socket format is_quiet (Command.peer cmd) =
    other-Fair o socket format is_quiet (Command.peer cmd) tt
dispatch-Fair o socket format is_quiet (Command.port cmd) =
    other-Fair o socket format is_quiet (Command.port cmd) tt

commanded-Fair :
    (o : Outside) (cli : Cli) (command : Option Command) → Fair (commanded o cli command)
unfolding commanded
commanded-Fair o cli none = helped-Fair o.stdout o.help
commanded-Fair o cli (some command) = dispatch-Fair o cli.socket cli.format cli.quiet command

picked-Fair : (b : Bool) (c d : Course) → Fair c → Fair d → Fair (if b then c else d)
picked-Fair true c d f g = f
picked-Fair false c d f g = g

run-Fair : (o : Outside) (cli : Cli) → Fair (run o cli)
unfolding run
run-Fair o cli =
    picked-Fair cli.dump_schema (dumped (dump o.surroundings.pretty o.version o.command_tree))
      (commanded o cli cli.command)
      (dumped-Fair (dump o.surroundings.pretty o.version o.command_tree))
      (commanded-Fair o cli cli.command)

-- Nothing was written to a stdout that nobody reads or that fails.
abbrev pub Unspoken : Stdout → Console → Type 0
Unspoken drained c = Unit {0}
Unspoken unread c = c.stdout ≡ []
Unspoken (failing e) c = c.stdout ≡ []

-- The process serves or exits with a published code, having written to no stdout that nobody reads
-- or that fails; or a write to one ended it, by the signal or with a panic.
abbrev pub Proper : Stdout → Ending → Type 0
Proper s (exits c code) = Published code × Unspoken s c
Proper s (serves_on c d) = Unspoken s c
Proper s aborts = (e : Error) × (s ≡ failing e)
Proper s (killed signal) = (s ≡ unread) × (signal ≡ 13)

written-Proper :
    (s : Stdout) (c : Console) (e : Ending) → (Unspoken s c → Proper s e) → Proper s (written s c e)
unfolding written
written-Proper drained c e f = f tt
written-Proper unread c e f = elim (Bool-cases (is_empty c.stdout)) [
  | inl h ↦ rw h (f (is_empty-nil c.stdout h))
  | inr h ↦ rw h (refl, refl)
]
written-Proper (failing x) c e f = elim (Bool-cases (is_empty c.stdout)) [
  | inl h ↦ rw h (f (is_empty-nil c.stdout h))
  | inr h ↦ rw h (x, refl)
]

said_nothing_more : (s : Stdout) (t : Text) (c : Console) → Unspoken s c → Unspoken s (eprintln t c)
unfolding eprintln
said_nothing_more drained t c h = tt
said_nothing_more unread t c h = h
said_nothing_more (failing e) t c h = h

ended-Proper : (s : Stdout) (c : Course) → Fair c → Proper s (ended s c)
unfolding ended
ended-Proper s (returns c (ok code)) f = written-Proper s c (exits c code) λ u. (f, u)
ended-Proper s (returns c (err e)) f =
    written-Proper s c _
      λ u. (kind-Published (kind_of e), said_nothing_more s (text "error: " ++ render e) c u)
ended-Proper s (serves c d) f = written-Proper s c (serves_on c d) λ u. u
ended-Proper s panics f = absurd f

-- Whatever the command line and whatever its surroundings answer, as long as what is written to
-- stderr is: the process goes on serving as a daemon, or it exits with a code that is in the table of
-- exit codes of its schema, and then it wrote nothing to a stdout that has no reader or that fails;
-- or SIGPIPE kills it, and then nobody read its stdout; or it panics, and then stdout failed with an
-- error.
pub main-Proper : (o : Outside) (cli : Cli) → Proper o.stdout (main o cli)
unfolding main
main-Proper o cli = ended-Proper o.stdout (run o cli) (run-Fair o cli)
