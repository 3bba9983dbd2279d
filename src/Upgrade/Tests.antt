-- ===== src/Upgrade/Tests.antt =====
-- upgrade.rs: samples. The digest of the sample site is the content itself.
use ig.Base.{◌≡◌, refl, false, none, some, [], ◌∷◌, ◌⊎◌, take, if◌then◌else◌}
use ig.Base.Text.{Text, text, text_eq, hex, rsplit_once, strip_prefix, starts_with, decimal}
use ig.Base.Paths.{parent, join}
use ig.Base.Lines.{lines, trim, trim_start_matches, split_once, to_lowercase}
use ig.Failure.{ok}
use ig.Console.{Format, eprintln, println, quiet}
use ig.Disk.{
  Disk, success, find_file, perform, write_with, act, opened, put_file, drop_file, written,
}
use ig.Upgrade.{run, verify, upgrade_file, download, replace, report, wanted}
use ig.Release.{
  Site, Release, Reply, answered, version, token, asset, latest, fetch, get_url, received,
}
use ig.Upgrade.Swap.{Apart, exe_folder}
use ig.Upgrade.Verified.{run-safe, VerifiedAt}
use ig.Upgrade.Outcome.{run-Ended, Ended}

abbrev release : Release
release = record {
  tag_name = text "v2.0.0";
  assets =
      record { name = text "ig-x"; url = text "b" }
      ∷ record { name = text "SHA256SUMS"; url = text "s" }
      ∷ [];
}

abbrev sums : Text
sums = text "ff  ig-y\n0A0b  ig-x\n"

abbrev answer : Text → Reply
answer url = answered 200 (text "200 OK") (
    some (
      if text_eq url (text "b") then 10 ∷ 11 ∷ [] else if text_eq url (text "s") then sums else []))

abbrev pub site : Site
site = record {
  target = text "x";
  current = text "1.0.0";
  gh_token = some (text " t ");
  github_token = none;
  gh = none;
  http_client = ok tt;
  send = λ token url accept. answer url;
  parse_release = λ body. ok release;
  from_utf8_lossy = λ bytes. bytes;
  sha256 = λ bytes. bytes;
  pretty = λ j. ok (text "{}");
  exe = ok (text "/bin/ig");
  pid = 7;
  answers = success;
}

abbrev disk : Disk
disk = (text "/bin/ig", record { content = 1 ∷ []; mode = 0o755 }) ∷ []

version_test : version release ≡ text "2.0.0"
unfolding version text trim_start_matches
version_test = refl

token_test : token site ≡ some (text "t")
unfolding token text trim
token_test = refl

installed_test :
    find_file (text "/bin/ig") (perform (run site false Format.json).actions disk)
    ≡ some (record { content = 10 ∷ 11 ∷ []; mode = 0o755 })
unfolding run find_file perform text latest text_eq version trim_start_matches download asset fetch
    verify lines split_once strip_prefix trim hex to_lowercase replace rsplit_once write_with
    decimal starts_with eprintln println quiet act opened put_file drop_file written get_url report
    upgrade_file parent join wanted received token
installed_test = refl

apart : Apart (text "/bin/ig") 7 (exe_folder (text "/bin/ig"))
unfolding text parent join rsplit_once text_eq upgrade_file
apart = refl

run-safe_example :
    let cut = perform (take 3 (run site false Format.text).actions) disk in
    (find_file (text "/bin/ig") cut ≡ find_file (text "/bin/ig") disk)
    ⊎ VerifiedAt site false (text "/bin/ig") cut
run-safe_example = run-safe site false Format.text (text "/bin/ig") disk 3 refl apart

run-Ended_example :
    let r = run site false Format.json in Ended site false (text "/bin/ig") disk r.actions r.result
run-Ended_example =
    run-Ended site false Format.json (text "/bin/ig") disk (λ j. (text "{}", refl)) refl apart
