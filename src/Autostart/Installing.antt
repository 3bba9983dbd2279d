-- ===== src/Autostart/Installing.antt =====
-- autostart.rs, `install`: what is written and in which order, and what each platform runs.
use ig.Base.{
  ℕ, ◌≡◌, refl, Bool, true, false, Option, none, some, List, [], ◌∷◌, ◌++◌, ap, sym, ◌∙◌, subst,
}
use ig.Base.Map.{map_option}
use ig.Base.Paths.{parent}
use ig.Base.Text.{Text, text}
use ig.Failure.{Result, ok, err}
use ig.Console.{Format, Console}
use ig.Disk.{Disk, create, act, perform, appends, opened, written}
use ig.Disk.Effects.{content_at, create-file, perform-appends}
use ig.Autostart.{
  Platform, done, reported, refused, install, installed, install_at, write_unit, unit_written,
  folder_made,
}
use ig.Supervisor.{Step, Course, Setting, Plan, then_do}
use ig.Autostart.Steps.{
  disk_after, disk_after-append, disk_after-files, commands-disk, OnlyCommands, Prints, done_ok,
}

-- The unit is on the disk.
abbrev Written : Text → Text → Disk → Type 0
Written path unit disk = content_at path disk ≡ some unit

pub then_do-ok :
    (c d : Course)
    → (then_do c d).1 ≡ ok tt
    → (c.1 ≡ ok tt) × (d.1 ≡ ok tt) × ((then_do c d).0 ≡ c.0 ++ d.0)
unfolding then_do
then_do-ok (xs, err e) d h = cc
then_do-ok (xs, ok _) (ys, r) h = (refl, h, refl)

file-Written :
    (path unit : Text) (mode : ℕ) (disk : Disk)
    → Written path unit (perform (create mode path ∷ appends path unit) disk)
unfolding perform
file-Written path unit mode disk =
    ap (map_option (λ f. f.content))
      (perform-appends path unit _ (act (create mode path) disk) (create-file mode path disk))

unit_written-Written :
    (path unit : Text) (mode n : ℕ) (opening write : Option Text) (disk : Disk)
    → let c = unit_written path (opened mode path opening (written path unit n write none)) in
      c.1 ≡ ok tt → Written path unit (disk_after c.0 disk)
unfolding unit_written opened written
unit_written-Written path unit mode n (some e) write disk h = cc
unit_written-Written path unit mode n none (some e) disk h = cc
unit_written-Written path unit mode n none none disk h =
    ap (content_at path) (disk_after-files (create mode path ∷ appends path unit) disk)
    ∙ file-Written path unit mode disk

write_unit-Written :
    (s : Setting) (path unit : Text) (disk : Disk)
    → (write_unit s path unit).1 ≡ ok tt
    → Written path unit (disk_after (write_unit s path unit).0 disk)
unfolding write_unit
write_unit-Written s path unit disk h =
    let c =
      unit_written path
        (opened s.default_mode path s.opening (written path unit s.written s.write none)) in
    let (made, wrote, steps) = then_do-ok ([], folder_made s path (parent path)) c h in
    ap (λ xs. content_at path (disk_after xs disk)) steps
    ∙ unit_written-Written path unit s.default_mode s.written s.opening s.write disk wrote

-- What an installation that succeeds has done: nothing for a dry run; otherwise the unit was written
-- whole, and after that the supervisor loaded it.
abbrev pub Installed :
    Setting → Platform → Plan → Bool → Text → Disk → List Step → Result ℕ → Type 0
Installed s p plan dry_run path disk steps (err e) = dry_run ≡ true → steps ≡ []
Installed s p plan dry_run path disk steps (ok code) =
    (code ≡ 0)
    × (dry_run ≡ true → steps ≡ [])
    × (dry_run ≡ false
        → ((p.load s path).1 ≡ ok tt)
          × (steps ≡ (write_unit s path (p.render plan)).0 ++ (p.load s path).0)
          × (content_at path (disk_after steps disk) ≡ some (p.render plan)))

loaded-Installed :
    (s : Setting) (p : Platform) (plan : Plan) (path : Text) (disk : Disk) (c : Course)
    (out : Console × Result ℕ)
    → OnlyCommands p
    → out.1 ≡ ok 0
    → then_do (write_unit s path (p.render plan)) (p.load s path) ≡ c
    → let r = reported c out in Installed s p plan false path disk r.steps r.result
unfolding reported refused
loaded-Installed s p plan path disk (steps, err e) out only good same = λ dry. cc
loaded-Installed s p plan path disk (steps, ok _) out only good same =
    let w = write_unit s path (p.render plan) in
    let (wrote, loaded, all) = then_do-ok w (p.load s path) (ap (λ r. r.1) same) in
    let order : steps ≡ w.0 ++ (p.load s path).0 = sym (ap (λ r. r.0) same) ∙ all in
    rw good (
      refl,
      λ dry. cc,
      λ real. (
        loaded,
        order,
        ap (λ xs. content_at path (disk_after xs disk)) order
            ∙ ap (content_at path) (
                disk_after-append w.0 (p.load s path).0 disk
                ∙ commands-disk (p.load s path).0 (disk_after w.0 disk) (only.loads s path))
            ∙ write_unit-Written s path (p.render plan) disk wrote,
      ),
    )

install_at-Installed :
    (s : Setting) (p : Platform) (plan : Plan) (dry_run : Bool) (format : Format) (path : Text)
    (disk : Disk)
    → OnlyCommands p
    → Prints s
    → let r = install_at s p plan dry_run format path in
      Installed s p plan dry_run path disk r.steps r.result
unfolding install_at reported
install_at-Installed s p plan true format path disk only prints =
    rw
      (done_ok s format true (text "write " ++ (path ++ text " and load it")) (some (p.render plan))
        prints)
      (refl, λ dry. refl, λ real. cc)
install_at-Installed s p plan false format path disk only prints =
    loaded-Installed s p plan path disk _
      (done s format false (text "installed " ++ (path ++ text " and started it")) none) only
      (done_ok s format false _ none prints) refl

-- Installing succeeds, as a dry run, with no step taken, and otherwise only with the unit whole on
-- the disk as it was rendered for this binary, and with the steps that loaded it all after those that
-- wrote it; a dry run that fails has taken no step either. The platform must only run commands, which
-- do not touch the unit, and printing a value as JSON must not fail.
pub install-Installed :
    (s : Setting) (p : Platform) (socket : Text) (args : List Text) (dry_run : Bool)
    (format : Format) (exe path : Text) (disk : Disk)
    → OnlyCommands p
    → Prints s
    → s.exe ≡ ok exe
    → p.unit_path ≡ ok path
    → let r = install s p socket args dry_run format in
      Installed s p
        (record { exe = exe; socket = socket; args = args })
        dry_run
        path
        disk
        r.steps
        r.result
unfolding install installed
install-Installed s p socket args dry_run format exe path disk only prints here at =
    let plan : Plan = record { exe = exe; socket = socket; args = args } in
    subst
      (λ e.
        let r = installed s p socket args dry_run format e p.unit_path in
        Installed s p plan dry_run path disk r.steps r.result)
      (sym here)
      (subst
        (λ u.
          let r = installed s p socket args dry_run format (ok exe) u in
          Installed s p plan dry_run path disk r.steps r.result)
        (sym at) (install_at-Installed s p plan dry_run format path disk only prints))
