-- ===== src/Disk/Effects.antt =====
-- state.rs: the effects of the calls that `write_json` makes, on one file and on the others.
use ig.Base.{
  ℕ, zero, suc, ◌≡◌, refl, false, Option, none, some, List, [], ◌∷◌, ◌++◌, arith, if◌then◌else◌,
  take, All, inl, inr, ap, ◌∙◌, Option-cases,
}
use mathlib.Core.List.{append-nil, append_assoc}
use ig.Base.Map.{map_option}
use ig.Base.Text.{Text, text, text_eq, text_eq_iff, text_eq_refl}
use ig.Disk.{
  File, Disk, find_file, put_file, drop_file, Action, create, append, rename, unlink, act, perform,
  appends, temporary, truncated, appended, renamed,
}

pub find_file-put_file :
    (p q : Text) (f : File) (disk : Disk)
    → find_file q (put_file p f disk) ≡ (if text_eq p q then some f else find_file q disk)
unfolding find_file put_file
find_file-put_file p q f [] = refl
find_file-put_file p q f ((r, g) ∷ disk) =
    ground (arith, text_eq_iff r p, text_eq_iff r q, text_eq_iff p q, find_file-put_file p q f disk)

pub find_file-drop_file :
    (p q : Text) (disk : Disk)
    → find_file q (drop_file p disk) ≡ (if text_eq p q then none else find_file q disk)
unfolding find_file drop_file
find_file-drop_file p q [] = ground arith
find_file-drop_file p q ((r, g) ∷ disk) =
    ground (arith, text_eq_iff r p, text_eq_iff r q, text_eq_iff p q, find_file-drop_file p q disk)

abbrev pub content_at : Text → Disk → Option (List ℕ)
content_at path disk = map_option (λ f. f.content) (find_file path disk)

-- The action concerns this file alone.
abbrev pub On : Text → Action → Type 0
On path (create mode p) = p ≡ path
On path (append p b) = p ≡ path
On path (rename p q) = ⊥
On path (unlink p) = p ≡ path

pub act-other :
    (path other : Text) (a : Action) (disk : Disk)
    → On path a
    → text_eq path other ≡ false
    → find_file other (act a disk) ≡ find_file other disk
unfolding act appended
act-other path other (create mode p) disk e h = rw (find_file-put_file p other _ disk, e, h)
act-other path other (append p b) disk e h = elim (Option-cases (find_file p disk)) [
  | inl n ↦ rw (n, act, appended)
  | inr (f, n) ↦ rw (n, act, appended, find_file-put_file p other _ disk, e, h)
]
act-other path other (rename p q) disk e h = absurd e
act-other path other (unlink p) disk e h = rw (find_file-drop_file p other disk, e, h)

pub perform-other :
    (path other : Text) (n : ℕ) (actions : List Action) (disk : Disk)
    → All (On path) actions
    → text_eq path other ≡ false
    → find_file other (perform (take n actions) disk) ≡ find_file other disk
unfolding perform
perform-other path other zero actions disk on h = refl
perform-other path other (suc n) [] disk on h = refl
perform-other path other (suc n) (a ∷ actions) disk on h =
    perform-other path other n actions (act a disk) on.1 h ∙ act-other path other a disk on.0 h

-- A path is not its temporary sibling.
pub text_eq-append : (s t : Text) (c : ℕ) → text_eq (s ++ c ∷ t) s ≡ false
unfolding text_eq
text_eq-append [] t c = refl
text_eq-append (d ∷ s) t c = ground (arith, text_eq-append s t c)

pub temporary-ne : (path : Text) (pid : ℕ) → text_eq (temporary path pid) path ≡ false
unfolding temporary text
temporary-ne path pid = text_eq-append path _ b'.'

pub All-append :
    (tmp : Text) (xs ys : List Action) → All (On tmp) xs → All (On tmp) ys → All (On tmp) (xs ++ ys)
All-append tmp [] ys h k = k
All-append tmp (x ∷ xs) ys h k = (h.0, All-append tmp xs ys h.1 k)

pub appends-On : (path : Text) (bytes : List ℕ) → All (On path) (appends path bytes)
unfolding appends
appends-On path [] = tt
appends-On path (b ∷ bytes) = (refl, appends-On path bytes)

pub perform-append :
    (xs ys : List Action) (disk : Disk) → perform (xs ++ ys) disk ≡ perform ys (perform xs disk)
unfolding perform
perform-append [] ys disk = refl
perform-append (x ∷ xs) ys disk = perform-append xs ys (act x disk)

pub append-file :
    (path : Text) (b : ℕ) (f : File) (disk : Disk)
    → find_file path disk ≡ some f
    → find_file path (act (append path b) disk) ≡ some (record f { content = f.content ++ b ∷ [] })
unfolding act
append-file path b f disk h =
    rw (h, act, appended, find_file-put_file path path _ disk, text_eq_refl path)

pub create-file :
    (mode : ℕ) (path : Text) (disk : Disk)
    → find_file path (act (create mode path) disk)
      ≡ some (record { content = []; mode = (truncated mode (find_file path disk)).mode })
unfolding act
create-file mode path disk = elim (Option-cases (find_file path disk)) [
  | inl n ↦ rw (n, find_file-put_file path path _ disk, text_eq_refl path)
  | inr (f, n) ↦ rw (n, find_file-put_file path path _ disk, text_eq_refl path)
]

pub rename-file :
    (from to : Text) (f : File) (disk : Disk)
    → find_file from disk ≡ some f
    → find_file to (act (rename from to) disk) ≡ some f
unfolding act
rename-file from to f disk h =
    rw (h, act, renamed, find_file-put_file to to f (drop_file from disk), text_eq_refl to)

pub perform-appends :
    (path : Text) (bytes : List ℕ) (f : File) (disk : Disk)
    → find_file path disk ≡ some f
    → find_file path (perform (appends path bytes) disk)
      ≡ some (record f { content = f.content ++ bytes })
unfolding perform appends
perform-appends path [] f disk h = rw (append-nil f.content) h
perform-appends path (b ∷ bytes) f disk h =
    perform-appends path bytes (record f { content = f.content ++ b ∷ [] })
      (act (append path b) disk) (append-file path b f disk h)
    ∙ ap (λ c. some (record f { content = c })) (append_assoc f.content (b ∷ []) bytes)
