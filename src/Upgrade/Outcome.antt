-- ===== src/Upgrade/Outcome.antt =====
-- upgrade.rs, `run` and `get`: what a run that ended reports.
use ig.Base.{ℕ, ◌≡◌, refl, Bool, true, false, some, List, [], ◌⊎◌, inl, inr}
use ig.Base.Text.{Text}
use ig.Failure.{Result, ok, err, ok-injective}
use ig.Console.{Format, Json}
use ig.Disk.{Disk, Action, find_file, perform}
use ig.Disk.Effects.{content_at}
use ig.Upgrade.{
  refused, Run, run, untouched, installed, report, printed, replace, executable_mode, report_json,
}
use ig.Release.{Site}
use ig.Upgrade.Swap.{Apart, exe_folder, sibling, replace-Replaced}
use ig.Upgrade.Verified.{Verified, Went, stopped, reported, swapping, run-Went}
use ig.Disk.Swap.{Swapped}

-- A run that ends well has the exit code 0, and did nothing or put a verified binary in place; one
-- that fails has left the binary as it was.
abbrev pub Ended : Site → Bool → Text → Disk → List Action → Result ℕ → Type 0
Ended s dry_run exe disk actions (err e) = find_file exe (perform actions disk) ≡ find_file exe disk
Ended s dry_run exe disk actions (ok code) =
    (code ≡ 0)
    × ((actions ≡ [])
        ⊎ ((bytes : List ℕ) × Verified s bytes
            × (dry_run ≡ false)
            × (content_at exe (perform actions disk) ≡ some bytes)))

abbrev pub Prints : Site → Type 0
Prints s = (j : Json) → (t : Text) × (s.pretty j ≡ ok t)

report_ok :
    (s : Site) (format : Format) (dry_run : Bool) (latest : Text) (upgraded : Bool) (detail : Text)
    → Prints s
    → (report s format dry_run latest upgraded detail).1 ≡ ok 0
unfolding report printed
report_ok s Format.text dry_run latest upgraded detail prints = refl
report_ok s Format.json dry_run latest upgraded detail prints =
    rw (prints (report_json s dry_run latest upgraded detail)).1 refl

idle-Ended :
    (s : Site) (dry_run : Bool) (exe : Text) (disk : Disk) (r : Result ℕ)
    → r ≡ ok 0
    → Ended s dry_run exe disk [] r
idle-Ended s dry_run exe disk (err e) h = cc
idle-Ended s dry_run exe disk (ok code) h = (ok-injective code 0 h, inl refl)

installed-Ended :
    (s : Site) (format : Format) (dry_run : Bool) (exe latest : Text) (bytes : List ℕ) (disk : Disk)
    (out : List Action × Result Text)
    → Prints s
    → dry_run ≡ false
    → Verified s bytes
    → Swapped executable_mode exe (sibling s.pid (exe_folder exe)) bytes disk out
    → let r = installed s format latest out in Ended s dry_run exe disk r.actions r.result
unfolding installed
installed-Ended s format dry_run exe latest bytes disk (actions, err e) prints real v old = old
installed-Ended s format dry_run exe latest bytes disk (actions, ok path) prints real v
      (new, mode) =
    rw (report_ok s format false latest true _ prints) (refl, inr (bytes, v, real, new))

Went-Ended :
    (s : Site) (dry_run : Bool) (format : Format) (r : Run) (exe : Text) (disk : Disk)
    → Prints s
    → s.exe ≡ ok exe
    → Apart exe s.pid (exe_folder exe)
    → Went s dry_run format r
    → Ended s dry_run exe disk r.actions r.result
unfolding untouched refused
Went-Ended s dry_run format r exe disk prints at apart (stopped e) = unfold perform in refl
Went-Ended s dry_run format r exe disk prints at apart (reported dry new detail) =
    idle-Ended s dry_run exe disk _ (report_ok s format dry new false detail prints)
Went-Ended s dry_run format r exe disk prints at apart (swapping new bytes real v) =
    installed-Ended s format dry_run exe new bytes disk (replace s bytes) prints real v
      (replace-Replaced s bytes exe disk at apart)

-- A run that succeeds has the exit code 0, and did nothing to the disk or, being no dry run, put the
-- verified asset in the place of the binary; a run that fails has left the binary as it was. Printing
-- a report as JSON must not fail, and the temporary file must not be the binary itself.
pub run-Ended :
    (s : Site) (dry_run : Bool) (format : Format) (exe : Text) (disk : Disk)
    → Prints s
    → s.exe ≡ ok exe
    → Apart exe s.pid (exe_folder exe)
    → let r = run s dry_run format in Ended s dry_run exe disk r.actions r.result
run-Ended s dry_run format exe disk prints at apart =
    Went-Ended s dry_run format _ exe disk prints at apart (run-Went s dry_run format)
