-- ===== src/Upgrade.antt =====
-- upgrade.rs: replacing this binary with the latest release.
pub mod Swap
pub mod Sums
pub mod Verified
pub mod Outcome
pub mod Codes
pub mod Tests
use ig.Base.{
  ℕ, ◌≡◌, Bool, true, false, not, ◌||◌, Option, none, some, List, [], ◌∷◌, ◌++◌, ◌==◌, leb, ◌&&◌,
  if◌then◌else◌, is_empty,
}
use ig.Base.Text.{Text, text, text_eq, decimal, hex, rsplit_once}
use ig.Base.Paths.{parent, join}
use ig.Base.Lines.{trim, to_lowercase, lines, split_once, trim_start_matches}
use ig.Failure.{
  Error, Result, ok, err, fail, anyhow, note, ErrorKind, invalid, not_found, denied, unavailable,
  with_context, ◌>>=◌,
}
use ig.Console.{Format, Json, Fields, Console, quiet, println, eprintln}
use ig.Disk.{Action, rename, cleanup, Answers, write_with}
use ig.Release.{Release, Site, version, asset, token, latest, fetch}

abbrev pub sums_name : Text
sums_name = text "SHA256SUMS"

sum_of : Text → Option (Text × Text) → Option Text → Option Text
sum_of name none rest = rest
sum_of name (some (sum, file)) rest =
    if text_eq (trim file) name then some (to_lowercase (trim sum)) else rest

-- The digest that the first line for this file states.
pub wanted : Text → List Text → Option Text
unfolding sum_of
wanted name [] = none
wanted name (line ∷ ls) = sum_of name (split_once (text "  ") line) (wanted name ls)

checked : Text → Text → Option Text → Result (Unit {0})
checked name got none = err (fail not_found (sums_name ++ (text " does not cover " ++ name)))
checked name got (some want) =
    if not (text_eq got want)
    then err (
        fail invalid
          (name ++ (text " failed its checksum: expected " ++ (want ++ (text ", got " ++ got)))))
    else ok tt

unfoldable pub verify : Site → List ℕ → Text → Text → Result (Unit {0})
unfolding wanted checked
verify s binary sums name = checked name (hex (s.sha256 binary)) (wanted name (lines sums))

unfoldable pub upgrade_file : Text → ℕ → Text
upgrade_file dir pid = join dir (text ".ig-upgrade-" ++ decimal pid)

abbrev pub executable_mode : ℕ
executable_mode = 0o755

swapped :
    Text → Text → Text → Option Text → Bool → List Action × Option Text → List Action × Result Text
swapped exe dir tmp renaming unlinked (actions, some e) = (
  actions,
  err (
      fail denied (
        text "cannot write to "
        ++ (dir
            ++ (text ": " ++ (e ++ text "; install ig somewhere you own, or re-run with sudo"))))),
)
swapped exe dir tmp (some e) unlinked (actions, none) = (
  actions ++ cleanup tmp unlinked,
  err (anyhow (text "failed to replace " ++ (exe ++ (text ": " ++ e)))),
)
swapped exe dir tmp none unlinked (actions, none) = (actions ++ rename tmp exe ∷ [], ok exe)

replace_in : Site → List ℕ → Text → Option Text → List Action × Result Text
unfolding swapped
replace_in s binary exe none = ([], err (anyhow (exe ++ text " has no parent directory")))
replace_in s binary exe (some dir) =
    let tmp = upgrade_file dir s.pid in
    swapped exe dir tmp s.answers.renaming s.answers.unlinked
      (write_with executable_mode tmp binary s.answers)

replace_exe : Site → List ℕ → Result Text → List Action × Result Text
unfolding replace_in
replace_exe s binary (err e) = ([], err (note (text "cannot locate this binary") ∷ e))
replace_exe s binary (ok exe) = replace_in s binary exe (parent exe)

unfoldable pub replace : Site → List ℕ → List Action × Result Text
unfolding replace_exe
replace s binary = replace_exe s binary s.exe

-- What a run did: the calls on the disk, what it printed, and the exit code or the error.
pub record Run : Type 0 where
  pub actions : List Action
  pub console : Console
  pub result : Result ℕ

pub report_json : Site → Bool → Text → Bool → Text → Json
report_json s dry_run latest upgraded detail = Json.object (
    Fields.field (text "ok") (Json.boolean true) (
      Fields.field (text "dry_run") (Json.boolean dry_run) (
        Fields.field (text "current") (Json.string s.current) (
          Fields.field (text "latest") (Json.string latest) (
            Fields.field (text "upgraded") (Json.boolean upgraded)
              (Fields.field (text "detail") (Json.string detail) Fields.close))))))

printed : Result Text → Console × Result ℕ
printed (ok t) = (println t quiet, ok 0)
printed (err e) = (quiet, err e)

unfoldable pub report : Site → Format → Bool → Text → Bool → Text → Console × Result ℕ
unfolding printed report_json
report s Format.text dry_run latest upgraded detail =
    (eprintln ((if dry_run then text "would: " else []) ++ detail) quiet, ok 0)
report s Format.json dry_run latest upgraded detail =
    printed (s.pretty (report_json s dry_run latest upgraded detail))

-- A run that touched nothing.
pub untouched : Console × Result ℕ → Run
untouched (console, result) = record { actions = []; console = console; result = result }

pub refused : Error → Run
refused e = record { actions = []; console = quiet; result = err e }

-- The two downloads, and the check of one against the other.
unfoldable pub download : Site → Option Text → Release → Text → Result (List ℕ)
download s token release name = do
  a ← asset release name
  binary ← fetch s token a
  b ← asset release sums_name
  sums ← fetch s token b
  checked ← verify s binary (s.from_utf8_lossy sums) name
  ok binary

pub installed : Site → Format → Text → List Action × Result Text → Run
installed s format version (actions, err e) = record {
  actions = actions;
  console = quiet;
  result = err e;
}
installed s format version (actions, ok path) =
    let out = report s format false version true (
      text "upgraded "
      ++ (s.current
          ++ (text " -> "
              ++ (version ++ (text " at " ++ (path ++ text "; restart the daemon to run it")))))) in
    record { actions = actions; console = out.0; result = out.1 }

install : Site → Format → Text → Result (List ℕ) → Run
unfolding installed refused
install s format version (err e) = refused e
install s format version (ok binary) = installed s format version (replace s binary)

pub asset_name : Site → Text
asset_name s = text "ig-" ++ s.target

with_release : Site → Bool → Format → Option Text → Result Release → Run
unfolding install refused untouched asset_name
with_release s dry_run format token (err e) = refused e
with_release s dry_run format token (ok release) =
    if text_eq (version release) s.current
    then untouched
        (report s format dry_run (version release) false (text "already on " ++ s.current))
    else if dry_run
    then untouched (
        report s format true (version release) false
          (text "upgrade " ++ (s.current ++ (text " -> " ++ version release))))
    else install s format (version release) (download s token release (asset_name s))

with_client : Site → Bool → Format → Result (Unit {0}) → Run
unfolding with_release refused
with_client s dry_run format (err e) = refused (note (text "failed to build an HTTP client") ∷ e)
with_client s dry_run format (ok _) = with_release s dry_run format (token s) (latest s (token s))

unfoldable pub run : Site → Bool → Format → Run
unfolding with_client
run s dry_run format = with_client s dry_run format s.http_client
