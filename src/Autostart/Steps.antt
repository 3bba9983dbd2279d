-- ===== src/Autostart/Steps.antt =====
-- autostart.rs, `install` and `uninstall`: what the steps of a run leave of the unit.
use ig.Base.{
  ℕ, ◌≡◌, refl, Bool, true, false, Option, none, some, List, [], ◌∷◌, ◌++◌, map, All, is_some, ap,
  sym, ◌∙◌, subst,
}
use mathlib.Core.List.{append-nil}
use ig.Base.Text.{Text, text, text_eq_refl}
use ig.Failure.{Result, ok, err}
use ig.Console.{Format, Json, Console}
use ig.Disk.{Disk, Action, unlink, act, perform, find_file}
use ig.Disk.Effects.{find_file-drop_file}
use ig.Autostart.{
  Platform, done, reported, refused, json_out, uninstall, uninstalled, uninstall_at, unit_removed,
}
use ig.Supervisor.{Step, file, ran, Course, Setting, then_do}

-- What the steps do to the disk; the commands of the supervisor do nothing to it.
pub disk_after : List Step → Disk → Disk
disk_after [] disk = disk
disk_after (file a ∷ steps) disk = disk_after steps (act a disk)
disk_after (ran program args ∷ steps) disk = disk_after steps disk

abbrev pub IsCommand : Step → Type 0
IsCommand (file a) = ⊥
IsCommand (ran program args) = Unit {0}

-- A platform only runs commands.
pub record OnlyCommands (p : Platform) : Type 0 where
  pub loads : (s : Setting) (path : Text) → All IsCommand (p.load s path).0
  pub unloads : (s : Setting) (path : Text) → All IsCommand (p.unload s path).0

pub commands-disk :
    (steps : List Step) (disk : Disk) → All IsCommand steps → disk_after steps disk ≡ disk
unfolding disk_after
commands-disk [] disk h = refl
commands-disk (file a ∷ steps) disk h = absurd (h.0)
commands-disk (ran program args ∷ steps) disk h = commands-disk steps disk h.1

pub disk_after-append :
    (xs ys : List Step) (disk : Disk)
    → disk_after (xs ++ ys) disk ≡ disk_after ys (disk_after xs disk)
unfolding disk_after
disk_after-append [] ys disk = refl
disk_after-append (file a ∷ xs) ys disk = disk_after-append xs ys (act a disk)
disk_after-append (ran program args ∷ xs) ys disk = disk_after-append xs ys disk

pub disk_after-files :
    (actions : List Action) (disk : Disk)
    → disk_after (map file actions) disk ≡ perform actions disk
unfolding disk_after perform
disk_after-files [] disk = refl
disk_after-files (a ∷ actions) disk = disk_after-files actions (act a disk)

-- Printing a value as JSON does not fail.
abbrev pub Prints : Setting → Type 0
Prints s = (j : Json) → (t : Text) × (s.pretty j ≡ ok t)

json_out_ok : (r : Result Text) (t : Text) → r ≡ ok t → (json_out r).1 ≡ ok 0
unfolding json_out
json_out_ok (ok u) t h = refl
json_out_ok (err e) t h = cc

pub done_ok :
    (s : Setting) (format : Format) (dry_run : Bool) (detail : Text) (unit : Option Text)
    → Prints s
    → (done s format dry_run detail unit).1 ≡ ok 0
unfolding done
done_ok s Format.text dry_run detail unit prints = refl
done_ok s Format.json dry_run detail unit prints = let (t, e) = prints _ in json_out_ok _ t e

-- Did the unit go, and why not?
abbrev pub Removed : Setting → Platform → Bool → Text → Disk → List Step → Result ℕ → Type 0
Removed s p dry_run path disk steps (ok code) =
    (code ≡ 0)
    × (is_some (find_file path disk) ≡ true)
    × (dry_run ≡ true → steps ≡ [])
    × (dry_run ≡ false
        → ((p.unload s path).1 ≡ ok tt)
          × (steps ≡ (p.unload s path).0 ++ file (unlink path) ∷ [])
          × (find_file path (disk_after steps disk) ≡ none))
Removed s p dry_run path disk steps (err e) =
    find_file path (disk_after steps disk) ≡ find_file path disk

unlinked-none : (path : Text) (disk : Disk) → find_file path (act (unlink path) disk) ≡ none
unfolding act
unlinked-none path disk = rw (find_file-drop_file path path disk, text_eq_refl path) refl

unloaded-Removed :
    (s : Setting) (p : Platform) (path : Text) (disk : Disk) (c : Course) (u : Option Text)
    (out : Console × Result ℕ)
    → p.unload s path ≡ c
    → All IsCommand c.0
    → is_some (find_file path disk) ≡ true
    → out.1 ≡ ok 0
    → let r = reported (then_do c (unit_removed path u)) out in
      Removed s p false path disk r.steps r.result
unfolding reported refused then_do unit_removed
unloaded-Removed s p path disk (steps, err e) u out same only there good =
    ap (find_file path) (commands-disk steps disk only)
unloaded-Removed s p path disk (steps, ok _) (some e) out same only there good =
    ap (find_file path)
      (ap (λ xs. disk_after xs disk) (append-nil steps) ∙ commands-disk steps disk only)
unloaded-Removed s p path disk (steps, ok _) none out same only there good = rw good (
  refl,
  there,
  λ dry. cc,
  λ real. (
    ap (λ r. r.1) same,
    ap (λ r. r.0 ++ file (unlink path) ∷ []) (sym same),
    ap (find_file path) (
          disk_after-append steps (file (unlink path) ∷ []) disk
          ∙ ap (disk_after (file (unlink path) ∷ [])) (commands-disk steps disk only))
        ∙ unfold disk_after in unlinked-none path disk,
  ),
)

idle-Removed :
    (s : Setting) (p : Platform) (path : Text) (disk : Disk) (out : Console × Result ℕ)
    → is_some (find_file path disk) ≡ true
    → out.1 ≡ ok 0
    → let r = reported ([], ok tt) out in Removed s p true path disk r.steps r.result
unfolding reported
idle-Removed s p path disk out there good = rw good (refl, there, λ dry. refl, λ real. cc)

uninstall_at-Removed :
    (s : Setting) (p : Platform) (dry_run : Bool) (format : Format) (path : Text) (disk : Disk)
    (there : Bool)
    → OnlyCommands p
    → Prints s
    → is_some (find_file path disk) ≡ there
    → let r = uninstall_at s p dry_run format path there in
      Removed s p dry_run path disk r.steps r.result
unfolding uninstall_at refused
uninstall_at-Removed s p dry_run format path disk false only prints h = unfold disk_after in refl
uninstall_at-Removed s p true format path disk true only prints h =
    idle-Removed s p path disk (done s format true (text "stop it and remove " ++ path) none) h
      (done_ok s format true _ none prints)
uninstall_at-Removed s p false format path disk true only prints h =
    unloaded-Removed s p path disk (p.unload s path) s.unlinking
      (done s format false (text "removed " ++ path) none) refl (only.unloads s path) h
      (done_ok s format false _ none prints)

-- Uninstalling succeeds only if the unit was there; a dry run then takes no step; otherwise the
-- supervisor let go of the unit first, and the unit was deleted after that as the last step. Where
-- it fails, also because the supervisor did not let go, the unit is as it was. The platform must only
-- run commands, which do not touch the unit, and printing a value as JSON must not fail.
pub uninstall-Removed :
    (s : Setting) (p : Platform) (dry_run : Bool) (format : Format) (path : Text) (disk : Disk)
    → OnlyCommands p
    → Prints s
    → p.unit_path ≡ ok path
    → let r = uninstall s p dry_run format disk in Removed s p dry_run path disk r.steps r.result
unfolding uninstall uninstalled
uninstall-Removed s p dry_run format path disk only prints at =
    subst
      (λ u.
        let r = uninstalled s p dry_run format disk u in
        Removed s p dry_run path disk r.steps r.result)
      (sym at) (uninstall_at-Removed s p dry_run format path disk _ only prints refl)
