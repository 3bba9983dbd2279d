-- ===== src/Daemon/Key/Kept.antt =====
-- daemon.rs, `load_or_create_key`: a key that was loaded or made is what the next run loads.
use ig.Base.{
  ℕ, ◌≡◌, refl, Bool, true, false, Option, none, some, List, [], ◌∷◌, ◌==◌, if◌then◌else◌, length,
  arith, ==_iff, ap, ◌∙◌, sym, is_some,
}
use ig.Base.Paths.{parent}
use ig.Base.Text.{Text}
use ig.Failure.{Error, Result, ok, err, ok-injective}
use ig.Disk.{
  Disk, File, Action, find_file, perform, act, create, Answers, opened, written, appends, truncated,
  private_mode,
}
use ig.Disk.Effects.{perform-appends, create-file}
use ig.Daemon.Key.{load_or_create_key, load_or_make, key_read, key_written, key_made, folder_made}

-- The file of the key holds it, with this mode.
abbrev pub HoldsKey : Text → List ℕ → ℕ → Disk → Type 0
HoldsKey path key mode disk = find_file path disk ≡ some (record { content = key; mode = mode })

-- The mode that the file has: its own, or 0600 if it is made.
abbrev pub key_mode : Option File → ℕ
key_mode none = private_mode
key_mode (some f) = f.mode

-- The whole of a write that goes through, on a file that was not there.
made-HoldsKey :
    (path : Text) (key : List ℕ) (disk : Disk)
    → find_file path disk ≡ none
    → HoldsKey path key private_mode (perform (create private_mode path ∷ appends path key) disk)
unfolding perform truncated
made-HoldsKey path key disk new =
    perform-appends path key _ (act (create private_mode path) disk)
      (create-file private_mode path disk)
    ∙ rw new refl

key_written-HoldsKey :
    (path : Text) (generated key : List ℕ) (n : ℕ) (opening write : Option Text) (disk : Disk)
    → let out =
        key_written path generated opening
          (opened private_mode path opening (written path generated n write none)) in
      find_file path disk ≡ none
      → out.1 ≡ ok key
      → (generated ≡ key) × HoldsKey path key private_mode (perform out.0 disk)
unfolding key_written opened written
key_written-HoldsKey path generated key n (some e) write disk new h = cc
key_written-HoldsKey path generated key n none (some e) disk new h = cc
key_written-HoldsKey path generated key n none none disk new h =
    let same = ok-injective generated key h in
    (
      same,
      made-HoldsKey path generated disk new
          ∙ ap (λ k. some (record { content = k; mode = private_mode })) same,
    )

key_made-HoldsKey :
    (path : Text) (generated key : List ℕ) (a : Answers) (r : Result (Unit {0})) (disk : Disk)
    → find_file path disk ≡ none
    → (key_made path generated a r).1 ≡ ok key
    → (generated ≡ key)
      × HoldsKey path key private_mode (perform (key_made path generated a r).0 disk)
unfolding key_made
key_made-HoldsKey path generated key a (err e) disk new h = cc
key_made-HoldsKey path generated key a (ok _) disk new h =
    key_written-HoldsKey path generated key a.written a.opening a.write disk new h

sized :
    (b : Bool) (content key : List ℕ) (e : Error)
    → (if b then ok content else err e) ≡ ok key
    → (b ≡ true) × (content ≡ key)
sized true content key e h = (refl, ok-injective content key h)
sized false content key e h = cc

key_read-kept :
    (path : Text) (key : List ℕ) (a : Option Text) (f : File)
    → key_read path a f ≡ ok key
    → (f.content ≡ key) × (length key ≡ 32)
unfolding key_read
key_read-kept path key (some e) f h = cc
key_read-kept path key none f h =
    let (size, same) = sized (length f.content == 32) f.content key _ h in
    (same, ap length (sym same) ∙ (==_iff (length f.content) 32).0 size)

-- What a file of 32 bytes loads as.
holds-loads :
    (path : Text) (key other : List ℕ) (mode : ℕ) (a : Answers) (disk : Disk)
    → HoldsKey path key mode disk
    → length key ≡ 32
    → a.reading ≡ none
    → load_or_create_key path other a disk ≡ ([], ok key)
unfolding load_or_create_key key_read
holds-loads path key other mode a disk h n r = rw (h, load_or_make, r, key_read) (ground (arith, n))

-- Where the key is after a run that got one: in its file, which keeps its mode or is made with 0600;
-- and a file that was there is not touched.
abbrev pub Kept : Text → Disk → List Action → List ℕ → Type 0
Kept path disk actions key =
    (length key ≡ 32)
    × HoldsKey path key (key_mode (find_file path disk)) (perform actions disk)
    × (is_some (find_file path disk) ≡ true → actions ≡ [])

load_or_make-Kept :
    (path : Text) (generated key : List ℕ) (a : Answers) (o : Option File) (disk : Disk)
    → find_file path disk ≡ o
    → length generated ≡ 32
    → (load_or_make path generated a o).1 ≡ ok key
    → Kept path disk (load_or_make path generated a o).0 key
unfolding load_or_make perform
load_or_make-Kept path generated key a (some f) disk at n h =
    let (same, size) = key_read-kept path key a.reading f h in
    (size, rw at (ap (λ k. some (record { content = k; mode = f.mode })) same), λ there. refl)
load_or_make-Kept path generated key a none disk at n h =
    let (same, held) =
      key_made-HoldsKey path generated key a (folder_made (parent path) a.mkdir) disk at h in
    (
      ap length (sym same) ∙ n,
      rw at held,
      λ there. let e : false ≡ true = ap is_some (sym at) ∙ there in cc,
    )

-- Once a run has got a key, the file holds its 32 bytes, with the mode 0600 if the run made it and
-- as it was if it was there; and every later run that can read the file gets the same key, changes
-- nothing, and does not use the key that it would have made. A key that is made must have 32 bytes.
pub load_or_create_key-Kept :
    (path : Text) (generated other key : List ℕ) (a b : Answers) (disk : Disk)
    → length generated ≡ 32
    → b.reading ≡ none
    → (load_or_create_key path generated a disk).1 ≡ ok key
    → let actions = (load_or_create_key path generated a disk).0 in
      Kept path disk actions key
      × (load_or_create_key path other b (perform actions disk) ≡ ([], ok key))
unfolding load_or_create_key
load_or_create_key-Kept path generated other key a b disk n r h =
    let kept = load_or_make-Kept path generated key a (find_file path disk) disk refl n h in
    (
      kept,
      unfold load_or_create_key in
          holds-loads path key other (key_mode (find_file path disk)) b _ (kept.1) kept.0 r,
    )
