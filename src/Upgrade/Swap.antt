-- ===== src/Upgrade/Swap.antt =====
-- upgrade.rs, `replace`: what it leaves on the disk, run whole or cut off.
use ig.Base.{
  ℕ, zero, suc, ◌≡◌, refl, Bool, false, Option, none, some, List, [], ◌∷◌, ◌⊎◌, inl, take, sym,
  subst,
}
use ig.Base.Text.{Text, text_eq}
use ig.Base.Paths.{parent}
use ig.Failure.{Result, ok}
use ig.Disk.{
  Disk, find_file, Action, perform, appends, create, cleanup, opened, written, write_with,
}
use ig.Disk.Effects.{content_at, All-append, appends-On}
use ig.Disk.Swap.{
  Course, failed, replaced, cleanup-On, opened-On, Course-interrupted, Swapped, Course-Swapped,
}
use ig.Upgrade.{replace, replace_exe, replace_in, swapped, upgrade_file, executable_mode}
use ig.Release.{Site}

-- The folder of the binary.
abbrev pub exe_folder : Text → Option Text
exe_folder exe = parent exe

-- The temporary file is another one than the binary.
abbrev pub Apart : Text → ℕ → Option Text → Type 0
Apart exe pid none = Unit {0}
Apart exe pid (some dir) = text_eq (upgrade_file dir pid) exe ≡ false

swapped-Course :
    (exe dir tmp : Text) (bytes : List ℕ) (n : ℕ) (opening write sync renaming : Option Text)
    (u : Bool)
    → Course executable_mode exe tmp bytes (
        swapped exe dir tmp renaming u
          (opened executable_mode tmp opening (written tmp bytes n write sync)))
unfolding swapped opened written
swapped-Course exe dir tmp bytes n (some e) write sync renaming u =
    failed _ _ (opened-On executable_mode tmp bytes n (some e) write sync)
swapped-Course exe dir tmp bytes n none (some e) sync renaming u =
    failed _ _ (opened-On executable_mode tmp bytes n none (some e) sync)
swapped-Course exe dir tmp bytes n none none (some e) renaming u =
    failed _ _ (opened-On executable_mode tmp bytes n none none (some e))
swapped-Course exe dir tmp bytes n none none none (some e) u = failed _ _ (
    All-append tmp (create executable_mode tmp ∷ appends tmp bytes) (cleanup tmp u)
      (refl, appends-On tmp bytes) (cleanup-On tmp u))
swapped-Course exe dir tmp bytes n none none none none u = replaced exe

-- What a replacement leaves of the binary, wherever it is cut off.
abbrev pub Atomic : Text → List ℕ → Disk → List Action × Result Text → Type 0
Atomic exe bytes disk out =
    (n : ℕ)
    → (find_file exe (perform (take n out.0) disk) ≡ find_file exe disk)
      ⊎ (content_at exe (perform (take n out.0) disk) ≡ some bytes)

-- The temporary file, if the binary is in a folder.
abbrev pub sibling : ℕ → Option Text → Text
sibling pid none = []
sibling pid (some dir) = upgrade_file dir pid

abbrev pub Replaced : Site → Text → List ℕ → Disk → List Action × Result Text → Type 0
Replaced s exe bytes disk out =
    Swapped executable_mode exe (sibling s.pid (exe_folder exe)) bytes disk out

take-none {ℓ} : {A : Type ℓ} (n : ℕ) → take {A = A} n [] ≡ []
take-none zero = refl
take-none (suc n) = refl

pub untouched-file :
    (exe : Text) (disk : Disk) (n : ℕ)
    → find_file exe (perform (take n []) disk) ≡ find_file exe disk
unfolding perform
untouched-file exe disk n = rw (take-none {A = Action} n) refl

replace_in-Atomic :
    (s : Site) (bytes : List ℕ) (exe : Text) (dir : Option Text) (disk : Disk)
    → Apart exe s.pid dir
    → Atomic exe bytes disk (replace_in s bytes exe dir)
unfolding replace_in write_with
replace_in-Atomic s bytes exe none disk apart n = inl (untouched-file exe disk n)
replace_in-Atomic s bytes exe (some dir) disk apart n =
    let a = s.answers in
    Course-interrupted executable_mode exe (upgrade_file dir s.pid) bytes _ disk n apart
      (swapped-Course exe dir _ bytes a.written a.opening a.write a.sync a.renaming a.unlinked)

replace_in-Swapped :
    (s : Site) (bytes : List ℕ) (exe : Text) (dir : Option Text) (disk : Disk)
    → Apart exe s.pid dir
    → Swapped executable_mode exe (sibling s.pid dir) bytes disk (replace_in s bytes exe dir)
unfolding replace_in write_with
replace_in-Swapped s bytes exe none disk apart = unfold perform in refl
replace_in-Swapped s bytes exe (some dir) disk apart =
    let a = s.answers in
    Course-Swapped executable_mode exe (upgrade_file dir s.pid) bytes _ disk apart
      (swapped-Course exe dir _ bytes a.written a.opening a.write a.sync a.renaming a.unlinked)

pub replace-Atomic :
    (s : Site) (bytes : List ℕ) (exe : Text) (disk : Disk)
    → s.exe ≡ ok exe
    → Apart exe s.pid (exe_folder exe)
    → Atomic exe bytes disk (replace s bytes)
unfolding replace replace_exe
replace-Atomic s bytes exe disk here apart n =
    subst (λ r. Atomic exe bytes disk (replace_exe s bytes r)) (sym here)
      (replace_in-Atomic s bytes exe (exe_folder exe) disk apart) n

pub replace-Replaced :
    (s : Site) (bytes : List ℕ) (exe : Text) (disk : Disk)
    → s.exe ≡ ok exe
    → Apart exe s.pid (exe_folder exe)
    → Replaced s exe bytes disk (replace s bytes)
unfolding replace replace_exe
replace-Replaced s bytes exe disk here apart =
    subst (λ r. Replaced s exe bytes disk (replace_exe s bytes r)) (sym here)
      (replace_in-Swapped s bytes exe (exe_folder exe) disk apart)
