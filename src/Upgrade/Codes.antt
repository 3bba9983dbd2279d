-- ===== src/Upgrade/Codes.antt =====
-- upgrade.rs: the exit codes of an upgrade.
use ig.Base.{Bool, true, false, List}
use ig.Base.Text.{Text}
use ig.Failure.{Result, ok, err}
use ig.Console.{Format}
use ig.Disk.{Action}
use ig.Schema.Codes.{PublishedResult, zero-Published}
use ig.Upgrade.{Run, report, printed, installed, untouched, refused, run, replace}
use ig.Release.{Site}
use ig.Upgrade.Verified.{Went, stopped, reported, swapping, run-Went}

printed-Published : (r : Result Text) → PublishedResult (printed r).1
unfolding printed
printed-Published (ok t) = zero-Published
printed-Published (err e) = tt

report-Published :
    (s : Site) (format : Format) (dry_run : Bool) (latest : Text) (upgraded : Bool) (detail : Text)
    → PublishedResult (report s format dry_run latest upgraded detail).1
unfolding report
report-Published s Format.text dry_run latest upgraded detail = zero-Published
report-Published s Format.json dry_run latest upgraded detail = printed-Published _

installed-Published :
    (s : Site) (format : Format) (latest : Text) (out : List Action × Result Text)
    → PublishedResult (installed s format latest out).result
unfolding installed
installed-Published s format latest (actions, err e) = tt
installed-Published s format latest (actions, ok path) =
    report-Published s format false latest true _

Went-Published :
    (s : Site) (dry_run : Bool) (format : Format) (r : Run)
    → Went s dry_run format r
    → PublishedResult r.result
unfolding untouched refused
Went-Published s dry_run format r (stopped e) = tt
Went-Published s dry_run format r (reported dry new detail) =
    report-Published s format dry new false detail
Went-Published s dry_run format r (swapping new bytes real v) =
    installed-Published s format new (replace s bytes)

pub run-Published :
    (s : Site) (dry_run : Bool) (format : Format) → PublishedResult (run s dry_run format).result
run-Published s dry_run format = Went-Published s dry_run format _ (run-Went s dry_run format)
