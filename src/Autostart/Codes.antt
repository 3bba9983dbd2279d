-- ===== src/Autostart/Codes.antt =====
-- autostart.rs: the exit codes of its commands.
use ig.Base.{ℕ, Bool, true, false, Option, none, some, List, [], is_some, ◌&&◌, ◌++◌}
use ig.Base.Text.{Text, text}
use ig.Failure.{Result, ok, err}
use ig.Console.{Format, Console}
use ig.Disk.{Disk, find_file}
use ig.Schema.Codes.{PublishedResult, zero-Published}
use ig.Autostart.{
  Platform, done, json_out, reported, refused, install, installed, install_at, uninstall,
  uninstalled, uninstall_at, restart, restarted, restart_at, status, status_at, status_out,
  write_unit, unit_removed,
}
use ig.Supervisor.{Setting, Plan, Course, then_do}

json_out-Published : (r : Result Text) → PublishedResult (json_out r).1
unfolding json_out
json_out-Published (ok t) = zero-Published
json_out-Published (err e) = tt

done-Published :
    (s : Setting) (format : Format) (dry_run : Bool) (detail : Text) (unit : Option Text)
    → PublishedResult (done s format dry_run detail unit).1
unfolding done
done-Published s Format.text dry_run detail unit = zero-Published
done-Published s Format.json dry_run detail unit = json_out-Published _

reported-Published :
    (c : Course) (out : Console × Result ℕ)
    → PublishedResult out.1
    → PublishedResult (reported c out).result
unfolding reported refused
reported-Published (steps, err e) out h = tt
reported-Published (steps, ok _) out h = h

install_at-Published :
    (s : Setting) (p : Platform) (plan : Plan) (dry_run : Bool) (format : Format) (path : Text)
    → PublishedResult (install_at s p plan dry_run format path).result
unfolding install_at
install_at-Published s p plan true format path =
    reported-Published ([], ok tt)
      (done s format true (text "write " ++ (path ++ text " and load it")) (some (p.render plan)))
      (done-Published s format true (text "write " ++ (path ++ text " and load it"))
        (some (p.render plan)))
install_at-Published s p plan false format path =
    reported-Published (then_do (write_unit s path (p.render plan)) (p.load s path))
      (done s format false (text "installed " ++ (path ++ text " and started it")) none)
      (done-Published s format false (text "installed " ++ (path ++ text " and started it")) none)

installed-Published :
    (s : Setting) (p : Platform) (socket : Text) (args : List Text) (dry_run : Bool)
    (format : Format) (exe path : Result Text)
    → PublishedResult (installed s p socket args dry_run format exe path).result
unfolding installed refused
installed-Published s p socket args dry_run format (err e) path = tt
installed-Published s p socket args dry_run format (ok exe) (err e) = tt
installed-Published s p socket args dry_run format (ok exe) (ok path) =
    install_at-Published s p (record { exe = exe; socket = socket; args = args }) dry_run format
      path

pub install-Published :
    (s : Setting) (p : Platform) (socket : Text) (args : List Text) (dry_run : Bool)
    (format : Format)
    → PublishedResult (install s p socket args dry_run format).result
unfolding install
install-Published s p socket args dry_run format =
    installed-Published s p socket args dry_run format s.exe p.unit_path

uninstall_at-Published :
    (s : Setting) (p : Platform) (dry_run : Bool) (format : Format) (path : Text) (there : Bool)
    → PublishedResult (uninstall_at s p dry_run format path there).result
unfolding uninstall_at refused
uninstall_at-Published s p dry_run format path false = tt
uninstall_at-Published s p true format path true =
    reported-Published ([], ok tt) (done s format true (text "stop it and remove " ++ path) none)
      (done-Published s format true (text "stop it and remove " ++ path) none)
uninstall_at-Published s p false format path true =
    reported-Published (then_do (p.unload s path) (unit_removed path s.unlinking))
      (done s format false (text "removed " ++ path) none)
      (done-Published s format false (text "removed " ++ path) none)

uninstalled-Published :
    (s : Setting) (p : Platform) (dry_run : Bool) (format : Format) (disk : Disk)
    (path : Result Text)
    → PublishedResult (uninstalled s p dry_run format disk path).result
unfolding uninstalled refused
uninstalled-Published s p dry_run format disk (err e) = tt
uninstalled-Published s p dry_run format disk (ok path) =
    uninstall_at-Published s p dry_run format path (is_some (find_file path disk))

pub uninstall-Published :
    (s : Setting) (p : Platform) (dry_run : Bool) (format : Format) (disk : Disk)
    → PublishedResult (uninstall s p dry_run format disk).result
unfolding uninstall
uninstall-Published s p dry_run format disk =
    uninstalled-Published s p dry_run format disk p.unit_path

restart_at-Published :
    (s : Setting) (p : Platform) (dry_run : Bool) (format : Format) (path : Text) (there : Bool)
    → PublishedResult (restart_at s p dry_run format path there).result
unfolding restart_at refused
restart_at-Published s p dry_run format path false = tt
restart_at-Published s p true format path true =
    reported-Published ([], ok tt) (done s format true (text "restart the supervised daemon") none)
      (done-Published s format true (text "restart the supervised daemon") none)
restart_at-Published s p false format path true =
    reported-Published (p.restart s path) (done s format false (text "restarted") none)
      (done-Published s format false (text "restarted") none)

restarted-Published :
    (s : Setting) (p : Platform) (dry_run : Bool) (format : Format) (disk : Disk)
    (path : Result Text)
    → PublishedResult (restarted s p dry_run format disk path).result
unfolding restarted refused
restarted-Published s p dry_run format disk (err e) = tt
restarted-Published s p dry_run format disk (ok path) =
    restart_at-Published s p dry_run format path (is_some (find_file path disk))

pub restart-Published :
    (s : Setting) (p : Platform) (dry_run : Bool) (format : Format) (disk : Disk)
    → PublishedResult (restart s p dry_run format disk).result
unfolding restart
restart-Published s p dry_run format disk = restarted-Published s p dry_run format disk p.unit_path

status_out-Published :
    (s : Setting) (p : Platform) (format : Format) (path : Text) (there running : Bool)
    → PublishedResult (status_out s p format path there running).1
unfolding status_out
status_out-Published s p Format.json path there running = json_out-Published _
status_out-Published s p Format.text path there running = zero-Published

status_at-Published :
    (s : Setting) (p : Platform) (format : Format) (disk : Disk) (path : Result Text)
    → PublishedResult (status_at s p format disk path).result
unfolding status_at refused
status_at-Published s p format disk (err e) = tt
status_at-Published s p format disk (ok path) =
    let there = is_some (find_file path disk) in
    reported-Published ([], ok tt) (status_out s p format path there (there && p.is_running s))
      (status_out-Published s p format path there (there && p.is_running s))

pub status-Published :
    (s : Setting) (p : Platform) (format : Format) (disk : Disk)
    → PublishedResult (status s p format disk).result
unfolding status
status-Published s p format disk = status_at-Published s p format disk p.unit_path
