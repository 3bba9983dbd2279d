-- ===== src/Upgrade/Verified.antt =====
-- upgrade.rs, `verify` and `run`: what may become the binary.
use ig.Base.{
  ℕ, ◌≡◌, refl, ◌∙◌, ap, Bool, true, false, some, List, ◌⊎◌, inl, inr, subst, take, Bool-cases,
}
use ig.Base.Text.{Text, text_eq, hex}
use ig.Base.Lines.{lines}
use ig.Failure.{Error, Result, ok, err, bind-ok}
use ig.Console.{Format}
use ig.Disk.{Disk, Action, find_file, perform}
use ig.Disk.Effects.{content_at}
use ig.Upgrade.Sums.{Listed, verify-Listed}
use ig.Upgrade.Swap.{Apart, exe_folder, untouched-file, replace-Atomic}
use ig.Upgrade.{
  Run, verify, sums_name, asset_name, download, run, with_client, with_release, install, installed,
  untouched, refused, report, replace,
}
use ig.Release.{Site, Release, Asset, token, latest, asset, fetch, version}

-- These bytes are the asset that the release has for this target, and the first line for it in the
-- sums of the same release states their digest.
pub record Verified (s : Site) (bytes : List ℕ) : Type 0 where
  pub release : Release
  pub binary_asset : Asset
  pub sums_asset : Asset
  pub sums : List ℕ
  pub listing : latest s (token s) ≡ ok release
  pub has_binary : asset release (asset_name s) ≡ ok binary_asset
  pub has_sums : asset release sums_name ≡ ok sums_asset
  pub fetched : fetch s (token s) binary_asset ≡ ok bytes
  pub fetched_sums : fetch s (token s) sums_asset ≡ ok sums
  pub listed : Listed (asset_name s) (lines (s.from_utf8_lossy sums)) (hex (s.sha256 bytes))

download-Verified :
    (s : Site) (release : Release) (bytes : List ℕ)
    → latest s (token s) ≡ ok release
    → download s (token s) release (asset_name s) ≡ ok bytes
    → Verified s bytes
unfolding download
download-Verified s release bytes l h =
    let (a, ea, h1) = bind-ok (asset release (asset_name s)) _ bytes h in
    let (binary, eb, h2) = bind-ok (fetch s (token s) a) _ bytes h1 in
    let (c, ec, h3) = bind-ok (asset release sums_name) _ bytes h2 in
    let (sums, es, h4) = bind-ok (fetch s (token s) c) _ bytes h3 in
    let (u, ev, h5) =
      bind-ok (verify s binary (s.from_utf8_lossy sums) (asset_name s)) _ bytes h4 in
    let same : binary ≡ bytes = cc in
    record {
      release = release;
      binary_asset = a;
      sums_asset = c;
      sums = sums;
      listing = l;
      has_binary = ea;
      has_sums = ec;
      fetched = eb ∙ ap ok same;
      fetched_sums = es;
      listed =
          subst (λ b. Listed (asset_name s) (lines (s.from_utf8_lossy sums)) (hex (s.sha256 b)))
            same (verify-Listed s binary (s.from_utf8_lossy sums) (asset_name s) ev);
    }

-- A run either leaves the disk alone, or is no dry run and replaces the binary by verified bytes.
pub data Went (s : Site) (dry_run : Bool) (format : Format) : Run → Type 0 where
  stopped : (e : Error) → Went s dry_run format (refused e)
  reported :
      (dry : Bool) (latest detail : Text)
      → Went s dry_run format (untouched (report s format dry latest false detail))
  swapping :
      (latest : Text) (bytes : List ℕ)
      → dry_run ≡ false
      → Verified s bytes
      → Went s dry_run format (installed s format latest (replace s bytes))

install-Went :
    (s : Site) (format : Format) (release : Release) (r : Result (List ℕ))
    → latest s (token s) ≡ ok release
    → download s (token s) release (asset_name s) ≡ r
    → Went s false format (install s format (version release) r)
unfolding install
install-Went s format release (err e) l h = stopped e
install-Went s format release (ok bytes) l h =
    swapping (version release) bytes refl (download-Verified s release bytes l h)

with_release-Went :
    (s : Site) (dry_run : Bool) (format : Format) (r : Result Release)
    → latest s (token s) ≡ r
    → Went s dry_run format (with_release s dry_run format (token s) r)
unfolding with_release
with_release-Went s dry_run format (err e) l = stopped e
with_release-Went s true format (ok release) l =
    elim (Bool-cases (text_eq (version release) s.current)) [
      | inl e ↦ rw e (reported _ _ _)
      | inr e ↦ rw e (reported _ _ _)
    ]
with_release-Went s false format (ok release) l =
    elim (Bool-cases (text_eq (version release) s.current)) [
      | inl e ↦ rw e (reported _ _ _)
      | inr e ↦ rw e (install-Went s format release _ l refl)
    ]

with_client-Went :
    (s : Site) (dry_run : Bool) (format : Format) (r : Result (Unit {0}))
    → Went s dry_run format (with_client s dry_run format r)
unfolding with_client
with_client-Went s dry_run format (err e) = stopped _
with_client-Went s dry_run format (ok _) =
    with_release-Went s dry_run format (latest s (token s)) refl

pub run-Went :
    (s : Site) (dry_run : Bool) (format : Format) → Went s dry_run format (run s dry_run format)
unfolding run
run-Went s dry_run format = with_client-Went s dry_run format s.http_client

installed-actions :
    (s : Site) (format : Format) (latest : Text) (out : List Action × Result Text)
    → (installed s format latest out).actions ≡ out.0
unfolding installed
installed-actions s format latest (actions, err e) = refl
installed-actions s format latest (actions, ok path) = refl

abbrev pub VerifiedAt : Site → Bool → Text → Disk → Type 0
VerifiedAt s dry_run exe disk =
    (bytes : List ℕ) × Verified s bytes × (dry_run ≡ false) × (content_at exe disk ≡ some bytes)

Went-Safe :
    (s : Site) (dry_run : Bool) (format : Format) (r : Run) (exe : Text) (disk : Disk) (n : ℕ)
    → s.exe ≡ ok exe
    → Apart exe s.pid (exe_folder exe)
    → Went s dry_run format r
    → let cut = perform (take n r.actions) disk in
      (find_file exe cut ≡ find_file exe disk) ⊎ VerifiedAt s dry_run exe cut
unfolding untouched refused
Went-Safe s dry_run format r exe disk n at apart (stopped e) = inl (untouched-file exe disk n)
Went-Safe s dry_run format r exe disk n at apart (reported dry new detail) =
    inl (untouched-file exe disk n)
Went-Safe s dry_run format r exe disk n at apart (swapping new bytes real v) =
    rw (installed-actions s format new (replace s bytes))
      (elim (replace-Atomic s bytes exe disk at apart n) [
        | inl old ↦ inl old
        | inr new ↦ inr (bytes, v, real, new)
      ])

-- Wherever a run is cut off, and whatever the system answered, the binary is as it was, or the run
-- was no dry run and the binary is, whole, the asset of the latest release for this target, with the
-- digest that the sums of that release state for it. The temporary file must not be the binary
-- itself.
pub run-safe :
    (s : Site) (dry_run : Bool) (format : Format) (exe : Text) (disk : Disk) (n : ℕ)
    → s.exe ≡ ok exe
    → Apart exe s.pid (exe_folder exe)
    → let cut = perform (take n (run s dry_run format).actions) disk in
      (find_file exe cut ≡ find_file exe disk) ⊎ VerifiedAt s dry_run exe cut
run-safe s dry_run format exe disk n at apart =
    Went-Safe s dry_run format _ exe disk n at apart (run-Went s dry_run format)
