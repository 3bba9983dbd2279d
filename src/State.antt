-- ===== src/State.antt =====
-- state.rs: what a daemon was told, as it is kept across restarts.
mod Tests
pub mod Restart
use ig.Base.{
  ℕ, ◌<◌, ◌≡◌, Bool, true, false, ◌&&◌, Option, none, some, List, [], ◌∷◌, ◌++◌, if◌then◌else◌, ltb,
  is_empty,
}
use ig.Base.Map.{Map}
use ig.Base.Text.{Text, text, decimal}
use ig.Failure.{Error, Result, ok, err, anyhow, ◌>>=◌}
use ig.Backend.{BackendSpec}
use ig.Disk.{Disk, File, find_file, Answers, Codec, save_json, read_json}

abbrev pub this_version : ℕ
this_version = 1

pub record State : Type 0 where
  pub version : ℕ
  pub grants : List (ℕ × Text)
  pub services : Map BackendSpec
  pub binds : Map ℕ

abbrev pub default : State
default = record { version = 0; grants = []; services = []; binds = [] }

unfoldable pub is_empty_state : State → Bool
is_empty_state s = is_empty s.grants && is_empty s.services && is_empty s.binds

-- The file beside the key.
unfoldable pub store_path : Text → Text
store_path key_path = key_path ++ text ".state.json"

checked : Text → State → Result State
checked path s =
    if ltb this_version s.version
    then err (
        anyhow (
          path
          ++ (text " was written by a newer ig (state version "
              ++ (decimal s.version
                  ++ (text ", this build understands " ++ (decimal this_version ++ text ")"))))))
    else ok s

load_file : Codec State → Text → Option Text → Option File → Result State
unfolding checked
load_file codec path failed none = ok default
load_file codec path failed (some f) = do
  s ←
      read_json codec (text "failed to read " ++ path) (path ++ text " is not readable state")
        failed f
  checked path s

unfoldable pub load : Codec State → Text → Answers → Disk → Result State
unfolding load_file
load codec path a disk = load_file codec path a.reading (find_file path disk)

-- The version is stamped by the store.
unfoldable pub stamped : State → State
stamped s = record s { version = this_version }

unfoldable pub save : Codec State → Text → ℕ → State → Answers → Disk → Disk × Result (Unit {0})
unfolding stamped
save codec path pid s a disk = save_json codec path pid (stamped s) a disk
