-- ===== src/Disk/Atomic.antt =====
-- state.rs, `write_json`: what it leaves on the disk, run whole or cut off.
use ig.Base.{
  ℕ, zero, suc, ◌≡◌, refl, Bool, Option, none, some, List, [], ◌∷◌, take, ◌⊎◌, inl, inr, ap, ◌∙◌,
}
use ig.Base.Map.{map_option}
use ig.Base.Text.{Text}
use ig.Failure.{Error, Result, ok, err}
use ig.Disk.{
  Disk, find_file, Action, create, perform, Answers, appends, write_private, temporary, cleanup,
  replace, with_encoded, write_json, opened, write_with, written, success, after_parent, parent,
  create_parent, private_mode,
}
use ig.Disk.Swap.{
  Course, failed, replaced, cleanup-On, opened-On, Course-interrupted, Course-Swapped, Swapped,
  mode_after,
}
use ig.Disk.Effects.{content_at, temporary-ne, All-append, appends-On}

replace-Course :
    (path tmp : Text) (bytes : List ℕ) (n : ℕ) (opening write sync renaming : Option Text)
    (u : Bool)
    → Course private_mode path tmp bytes (
        replace path tmp renaming u
          (opened private_mode tmp opening (written tmp bytes n write sync)))
unfolding replace opened written
replace-Course path tmp bytes n (some e) write sync renaming u =
    failed _ _ (opened-On private_mode tmp bytes n (some e) write sync)
replace-Course path tmp bytes n none (some e) sync renaming u =
    failed _ _ (opened-On private_mode tmp bytes n none (some e) sync)
replace-Course path tmp bytes n none none (some e) renaming u =
    failed _ _ (opened-On private_mode tmp bytes n none none (some e))
replace-Course path tmp bytes n none none none (some e) u = failed _ _ (
    All-append tmp (create private_mode tmp ∷ appends tmp bytes) (cleanup tmp u)
      (refl, appends-On tmp bytes) (cleanup-On tmp u))
replace-Course path tmp bytes n none none none none u = replaced tt

after_parent-Course :
    (path tmp : Text) (bytes : List ℕ) (o : Option Error) (rest : List Action × Result (Unit {0}))
    → Course private_mode path tmp bytes rest
    → Course private_mode path tmp bytes (after_parent o rest)
unfolding after_parent
after_parent-Course path tmp bytes (some e) rest c = failed [] e tt
after_parent-Course path tmp bytes none rest c = c

write_json-Course :
    (path : Text) (pid : ℕ) (bytes : List ℕ) (a : Answers)
    → Course private_mode path (temporary path pid) bytes (write_json path pid (ok bytes) a)
unfolding write_json write_private write_with
write_json-Course path pid bytes a = after_parent-Course path (temporary path pid) bytes _ _ (
    replace-Course path (temporary path pid) bytes a.written a.opening a.write a.sync a.renaming
      a.unlinked)

-- A value that cannot be encoded touches nothing.
write_json-unencoded :
    (path : Text) (pid : ℕ) (e : Error) (a : Answers)
    → (f : Error) × (write_json path pid (err e) a ≡ ([], err f))
unfolding write_json
write_json-unencoded path pid e a = go (create_parent (parent path) a.mkdir)
  where
    go : (o : Option Error) → (f : Error) × (after_parent o ([], err e) ≡ ([], err f))
    go none = (e, refl)
    go (some f) = (f, refl)

-- The file holds what `encoded` says, if that is anything.
abbrev pub Holds : Text → Result (List ℕ) → Disk → Type 0
Holds path encoded disk =
    (bytes : List ℕ) × (encoded ≡ ok bytes) × (content_at path disk ≡ some bytes)

take-nil {ℓ} : {A : Type ℓ} (n : ℕ) → take {A = A} n [] ≡ []
take-nil zero = refl
take-nil (suc n) = refl

-- Wherever a write is cut off, and whatever the system answered, the file is as it was before or
-- has the whole of the new content.
pub write_json-atomic :
    (path : Text) (pid : ℕ) (encoded : Result (List ℕ)) (a : Answers) (disk : Disk) (n : ℕ)
    → let cut = perform (take n (write_json path pid encoded a).0) disk in
      (find_file path cut ≡ find_file path disk) ⊎ Holds path encoded cut
write_json-atomic path pid (ok bytes) a disk n =
    elim (Course-interrupted private_mode path (temporary path pid) bytes _ disk n
      (temporary-ne path pid) (write_json-Course path pid bytes a)) [
        | inl old ↦ inl old
        | inr new ↦ inr (bytes, refl, new)
      ]
write_json-atomic path pid (err e) a disk n =
    let (f, same) = write_json-unencoded path pid e a in
    inl (
      rw same (
        ap (λ actions. find_file path (perform actions disk)) (take-nil n)
        ∙ unfold perform in refl))

abbrev pub Outcome : Text → Text → Result (List ℕ) → Disk → List Action × Result (Unit {0}) → Type 0
Outcome path tmp encoded disk (actions, ok _) =
    Holds path encoded (perform actions disk)
    × (map_option (λ f. f.mode) (find_file path (perform actions disk))
        ≡ some (mode_after private_mode (find_file tmp disk)))
Outcome path tmp encoded disk (actions, err e) =
    find_file path (perform actions disk) ≡ find_file path disk

written-Outcome :
    (path tmp : Text) (bytes : List ℕ) (out : List Action × Result (Unit {0})) (disk : Disk)
    → Swapped private_mode path tmp bytes disk out
    → Outcome path tmp (ok bytes) disk out
written-Outcome path tmp bytes (actions, ok _) disk (content, mode) = ((bytes, refl, content), mode)
written-Outcome path tmp bytes (actions, err e) disk same = same

-- A write that reports success has put the new content in place, with the mode 0600, or the mode of
-- a stale temporary sibling; one that reports an error has left the file as it was.
pub write_json-Outcome :
    (path : Text) (pid : ℕ) (encoded : Result (List ℕ)) (a : Answers) (disk : Disk)
    → Outcome path (temporary path pid) encoded disk (write_json path pid encoded a)
write_json-Outcome path pid (ok bytes) a disk =
    written-Outcome path (temporary path pid) bytes _ disk (
      Course-Swapped private_mode path (temporary path pid) bytes _ disk (temporary-ne path pid)
        (write_json-Course path pid bytes a))
write_json-Outcome path pid (err e) a disk =
    let (f, same) = write_json-unencoded path pid e a in rw same (unfold perform in refl)

create_parent-success : (dir : Option Text) → create_parent dir none ≡ none
unfolding create_parent
create_parent-success none = refl
create_parent-success (some dir) = refl

-- Where no call fails, the write succeeds.
pub write_json-success :
    (path : Text) (pid : ℕ) (bytes : List ℕ) → (write_json path pid (ok bytes) success).1 ≡ ok tt
unfolding write_json after_parent with_encoded write_private write_with opened written replace
write_json-success path pid bytes = rw (create_parent-success (parent path))
