-- ===== src/Daemon/Key.antt =====
-- daemon.rs, the secret key: where it is, and how it is loaded or made. A key is its 32 bytes.
pub mod Kept
pub mod Tests
use ig.Base.{
  ℕ, ◌≡◌, refl, Bool, true, false, Option, none, some, List, [], ◌∷◌, ◌++◌, ◌==◌, if◌then◌else◌,
  length,
}
use ig.Base.Paths.{parent, join}
use ig.Base.Text.{Text, text}
use ig.Failure.{Error, Result, ok, err, anyhow, note}
use ig.Disk.{Disk, File, Action, find_file, perform, Answers, opened, written, private_mode}

or_home : Option Text → Option Text → Text
or_home (some state) home = state
or_home none (some home) = join (join home (text ".local")) (text "state")
or_home none none = text "."

-- From the variables XDG_STATE_HOME and HOME.
unfoldable pub default_key_path : Option Text → Option Text → Text
unfolding or_home
default_key_path state home = join (join (or_home state home) (text "ig")) (text "key")

-- `std::fs::read`, and the length of what was read.
key_read : Text → Option Text → File → Result (List ℕ)
key_read path (some e) f = err (note (text "failed to read key file " ++ path) ∷ anyhow e)
key_read path none f =
    if length f.content == 32
    then ok f.content
    else err (anyhow (text "key file " ++ (path ++ text " is not 32 bytes")))

folder_made : Option Text → Option Text → Result (Unit {0})
folder_made none answer = ok tt
folder_made (some dir) none = ok tt
folder_made (some dir) (some e) = err (note (text "failed to create " ++ dir) ∷ anyhow e)

-- The file is created anew, and opening it fails if it is there.
key_written :
    Text → List ℕ → Option Text → List Action × Option Text → List Action × Result (List ℕ)
key_written path key (some e) out =
    ([], err (note (text "failed to create key file " ++ path) ∷ anyhow e))
key_written path key none (actions, some e) =
    (actions, err (note (text "failed to write key file " ++ path) ∷ anyhow e))
key_written path key none (actions, none) = (actions, ok key)

key_made : Text → List ℕ → Answers → Result (Unit {0}) → List Action × Result (List ℕ)
unfolding key_written
key_made path key a (err e) = ([], err e)
key_made path key a (ok _) =
    key_written path key a.opening
      (opened private_mode path a.opening (written path key a.written a.write none))

load_or_make : Text → List ℕ → Answers → Option File → List Action × Result (List ℕ)
unfolding key_read folder_made key_made
load_or_make path generated a (some f) = ([], key_read path a.reading f)
load_or_make path generated a none = key_made path generated a (folder_made (parent path) a.mkdir)

-- `generated` is the key that is made if there is none.
unfoldable pub load_or_create_key : Text → List ℕ → Answers → Disk → List Action × Result (List ℕ)
unfolding load_or_make
load_or_create_key path generated a disk = load_or_make path generated a (find_file path disk)
