-- ===== src/Disk/Swap.antt =====
-- state.rs and upgrade.rs: the course of a write that goes through a temporary sibling, and what it
-- leaves on the disk, run whole or cut off.
use ig.Base.{
  ℕ, zero, suc, ◌≡◌, refl, Bool, true, false, Option, none, some, List, [], ◌∷◌, ◌++◌, take, length,
  All, ◌⊎◌, inl, inr, ap, sym, ◌∙◌,
}
use ig.Base.Map.{map_option}
use ig.Base.Text.{Text, text_eq}
use ig.Failure.{Error, Result, ok, err}
use ig.Disk.{
  File, Disk, find_file, Action, create, rename, act, perform, appends, cleanup, truncated, opened,
  written,
}
use ig.Disk.Effects.{
  content_at, On, perform-other, appends-On, perform-append, create-file, rename-file,
  perform-appends,
}

-- The two ways a write can go: nothing but the sibling is touched and it fails, or the sibling is
-- written whole and renamed.
pub data Course {A : Type 0} (mode : ℕ) (path tmp : Text) (bytes : List ℕ)
    : List Action × Result A → Type 0 where
  failed :
      (actions : List Action) (e : Error)
      → All (On tmp) actions
      → Course mode path tmp bytes (actions, err e)
  replaced :
      (a : A)
      → Course mode path tmp bytes
          ((create mode tmp ∷ appends tmp bytes) ++ rename tmp path ∷ [], ok a)

pub cleanup-On : (tmp : Text) (unlinked : Bool) → All (On tmp) (cleanup tmp unlinked)
unfolding cleanup
cleanup-On tmp true = (refl, tt)
cleanup-On tmp false = tt

-- The sibling alone is touched by a write that is not renamed yet.
pub opened-On :
    (mode : ℕ) (tmp : Text) (bytes : List ℕ) (n : ℕ) (opening write sync : Option Text)
    → All (On tmp) (opened mode tmp opening (written tmp bytes n write sync)).0
unfolding opened written
opened-On mode tmp bytes n (some e) write sync = tt
opened-On mode tmp bytes n none (some e) sync = (refl, appends-On tmp (take n bytes))
opened-On mode tmp bytes n none none sync = (refl, appends-On tmp bytes)

abbrev whole_run : ℕ → Text → Text → List ℕ → List Action
whole_run mode path tmp bytes = (create mode tmp ∷ appends tmp bytes) ++ rename tmp path ∷ []

-- The whole sequence of a write that succeeds.
whole_run-file :
    (mode : ℕ) (path tmp : Text) (bytes : List ℕ) (disk : Disk)
    → find_file path (perform (whole_run mode path tmp bytes) disk)
      ≡ some (record { content = bytes; mode = (truncated mode (find_file tmp disk)).mode })
unfolding perform
whole_run-file mode path tmp bytes disk =
    ap (find_file path)
      (perform-append (appends tmp bytes) (rename tmp path ∷ []) (act (create mode tmp) disk))
    ∙ rename-file tmp path _ (perform (appends tmp bytes) (act (create mode tmp) disk))
        (perform-appends tmp bytes _ (act (create mode tmp) disk) (create-file mode tmp disk))

take-append-one {ℓ} :
    {A : Type ℓ} (n : ℕ) (xs : List A) (r : A)
    → (take n (xs ++ r ∷ []) ≡ take n xs) ⊎ (take n (xs ++ r ∷ []) ≡ xs ++ r ∷ [])
take-append-one zero xs r = inl refl
take-append-one (suc zero) [] r = inr refl
take-append-one (suc (suc n)) [] r = inr refl
take-append-one (suc n) (x ∷ xs) r = elim (take-append-one n xs r) [
  | inl e ↦ inl (ap (◌∷◌ x) e)
  | inr e ↦ inr (ap (◌∷◌ x) e)
]

-- Cut off anywhere, such a write has left the file alone or put the whole content there.
pub Course-interrupted :
    {A : Type 0} (mode : ℕ) (path tmp : Text) (bytes : List ℕ) (out : List Action × Result A)
    (disk : Disk) (n : ℕ)
    → text_eq tmp path ≡ false
    → Course mode path tmp bytes out
    → (find_file path (perform (take n out.0) disk) ≡ find_file path disk)
      ⊎ (content_at path (perform (take n out.0) disk) ≡ some bytes)
Course-interrupted mode path tmp bytes out disk n ne (failed actions e on) =
    inl (perform-other tmp path n actions disk on ne)
Course-interrupted mode path tmp bytes out disk n ne (replaced a) =
    elim (take-append-one n (create mode tmp ∷ appends tmp bytes) (rename tmp path)) [
      | inl e ↦ inl (
          ap (λ actions. find_file path (perform actions disk)) e
          ∙ perform-other tmp path n (create mode tmp ∷ appends tmp bytes) disk
              (refl, appends-On tmp bytes) ne)
      | inr e ↦ inr (
          ap (λ actions. content_at path (perform actions disk)) e
          ∙ ap (map_option (λ f. f.content)) (whole_run-file mode path tmp bytes disk))
    ]

-- A new file has the mode asked for; a stale sibling passes its mode on.
abbrev pub mode_after : ℕ → Option File → ℕ
mode_after mode none = mode
mode_after mode (some f) = f.mode

truncated-mode : (mode : ℕ) (o : Option File) → (truncated mode o).mode ≡ mode_after mode o
unfolding truncated
truncated-mode mode none = refl
truncated-mode mode (some f) = refl

take-all {ℓ} : {A : Type ℓ} (xs : List A) → take (length xs) xs ≡ xs
take-all [] = refl
take-all (x ∷ xs) = ap (◌∷◌ x) (take-all xs)

-- Actions on one file leave the others.
pub perform-others :
    (tmp path : Text) (actions : List Action) (disk : Disk)
    → text_eq tmp path ≡ false
    → All (On tmp) actions
    → find_file path (perform actions disk) ≡ find_file path disk
perform-others tmp path actions disk ne on =
    ap (λ actions. find_file path (perform actions disk)) (sym (take-all actions))
    ∙ perform-other tmp path (length actions) actions disk on ne

-- The file after a write: whole and with its mode, or as it was.
abbrev pub Swapped :
    {A : Type 0} → ℕ → Text → Text → List ℕ → Disk → List Action × Result A → Type 0
Swapped mode path tmp bytes disk (actions, ok _) =
    (content_at path (perform actions disk) ≡ some bytes)
    × (map_option (λ f. f.mode) (find_file path (perform actions disk))
        ≡ some (mode_after mode (find_file tmp disk)))
Swapped mode path tmp bytes disk (actions, err e) =
    find_file path (perform actions disk) ≡ find_file path disk

pub Course-Swapped :
    {A : Type 0} (mode : ℕ) (path tmp : Text) (bytes : List ℕ) (out : List Action × Result A)
    (disk : Disk)
    → text_eq tmp path ≡ false
    → Course mode path tmp bytes out
    → Swapped mode path tmp bytes disk out
Course-Swapped mode path tmp bytes out disk ne (failed actions e on) =
    perform-others tmp path actions disk ne on
Course-Swapped mode path tmp bytes out disk ne (replaced a) = (
  ap (map_option (λ f. f.content)) (whole_run-file mode path tmp bytes disk),
  ap (map_option (λ f. f.mode)) (whole_run-file mode path tmp bytes disk)
      ∙ ap some (truncated-mode mode (find_file tmp disk)),
)
