-- ===== src/State/Restart.antt =====
-- state.rs, `Store::save` and `Store::load`: a save, whole or cut off, and the next load.
use ig.Base.{ℕ, ◌≤◌, ◌≡◌, refl, Option, none, some, List, ◌++◌, arith, take, ◌⊎◌, inl, inr, ap, ◌∙◌}
use ig.Base.Map.{map_option}
use ig.Base.Text.{Text, text}
use ig.Failure.{Result, ok, err, ◌>>=◌}
use ig.Disk.{
  Disk, File, Action, temporary, find_file, Answers, Codec, write_json, perform, read_json,
}
use ig.Disk.Atomic.{Holds, write_json-atomic, write_json-Outcome, Outcome}
use ig.State.{State, this_version, load, load_file, save, stamped, checked}

-- What a file that was saved comes back as: all of it, with the version of this build.
abbrev pub as_saved : State → State
as_saved s = record { version = 1; grants = s.grants; services = s.services; binds = s.binds }

stamped-as_saved : (s : State) → stamped s ≡ as_saved s
unfolding stamped
stamped-as_saved s = refl

load_file-content :
    (codec : Codec State) (path : Text) (o : Option File) (s : State) (bytes : List ℕ)
    → codec.encode (stamped s) ≡ ok bytes
    → map_option (λ f. f.content) o ≡ some bytes
    → load_file codec path none o ≡ ok (stamped s)
unfolding load_file read_json
load_file-content codec path none s bytes e h = cc
load_file-content codec path (some f) s bytes e h =
    let same : f.content ≡ bytes = ground arith in
    rw (same, codec.round_trip (stamped s) bytes e) (unfold stamped in refl)

-- A disk that holds the encoded state loads as that state.
load-Holds :
    (codec : Codec State) (path : Text) (a : Answers) (disk : Disk) (s : State)
    → a.reading ≡ none
    → Holds path (codec.encode (stamped s)) disk
    → load codec path a disk ≡ ok (stamped s)
unfolding load
load-Holds codec path a disk s r (bytes, e, h) =
    ap (λ answer. load_file codec path answer (find_file path disk)) r
    ∙ load_file-content codec path (find_file path disk) s bytes e h

-- Two disks that show the same state file load alike.
load-same :
    (codec : Codec State) (path : Text) (a : Answers) (disk disk' : Disk)
    → find_file path disk ≡ find_file path disk'
    → load codec path a disk ≡ load codec path a disk'
unfolding load
load-same codec path a disk disk' h = ap (load_file codec path a.reading) h

-- Cut a save off anywhere: the next load that can read the file gives what the last one gave, or
-- the new state.
pub load-interrupted :
    (codec : Codec State) (path : Text) (pid : ℕ) (s : State) (a later : Answers) (disk : Disk)
    (n : ℕ)
    → later.reading ≡ none
    → let cut = perform (take n (write_json path pid (codec.encode (stamped s)) a).0) disk in
      (load codec path later cut ≡ load codec path later disk)
      ⊎ (load codec path later cut ≡ ok (stamped s))
load-interrupted codec path pid s a later disk n r =
    elim (write_json-atomic path pid (codec.encode (stamped s)) a disk n) [
      | inl old ↦ inl (load-same codec path later _ disk old)
      | inr new ↦ inr (load-Holds codec path later _ s r new)
    ]

abbrev pub Saved : Codec State → Text → State → Answers → Disk → Disk × Result (Unit {0}) → Type 0
Saved codec path s later before (after, ok _) = load codec path later after ≡ ok (as_saved s)
Saved codec path s later before (after, err e) =
    load codec path later after ≡ load codec path later before

-- The grants, services and remaps that were saved come back from a load that can read the file, with
-- the version 1; after a save that reports an error a load gives what it gave before.
pub load-save :
    (codec : Codec State) (path : Text) (pid : ℕ) (s : State) (a later : Answers) (disk : Disk)
    → later.reading ≡ none
    → Saved codec path s later disk (save codec path pid s a disk)
unfolding save
load-save codec path pid s a later disk r =
    go (write_json path pid (codec.encode (stamped s)) a)
      (write_json-Outcome path pid (codec.encode (stamped s)) a disk)
  where
    go :
        (out : List Action × Result (Unit {0}))
        → Outcome path (temporary path pid) (codec.encode (stamped s)) disk out
        → Saved codec path s later disk (perform out.0 disk, out.1)
    go (actions, ok _) o = load-Holds codec path later _ s r o.0 ∙ ap ok (stamped-as_saved s)
    go (actions, err e) o = load-same codec path later _ disk o

checked-version :
    (path : Text) (r : Result State) (s : State)
    → (r >>= checked path) ≡ ok s
    → s.version ≤ this_version
unfolding checked
checked-version path (ok t) s h = ground arith
checked-version path (err e) s h = cc

load_file-version :
    (codec : Codec State) (path : Text) (failed : Option Text) (o : Option File) (s : State)
    → load_file codec path failed o ≡ ok s
    → s.version ≤ this_version
unfolding load_file
load_file-version codec path failed none s h = ground arith
load_file-version codec path failed (some f) s h =
    checked-version path
      (read_json codec (text "failed to read " ++ path) (path ++ text " is not readable state")
        failed f)
      s h

-- Whatever is loaded has a version that this build understands: a newer file stops the daemon.
pub load-version :
    (codec : Codec State) (path : Text) (a : Answers) (disk : Disk) (s : State)
    → load codec path a disk ≡ ok s
    → s.version ≤ this_version
unfolding load
load-version codec path a disk s h =
    load_file-version codec path a.reading (find_file path disk) s h
