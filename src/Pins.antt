-- ===== src/Pins.antt =====
-- enroll.rs: the pins that a daemon keeps on disk.
mod Tests
pub mod Pinned
pub mod Stored
use ig.Base.{ℕ, Bool, not, Option, none, some, List, [], ◌∷◌, ◌++◌, if◌then◌else◌}
use ig.Base.Text.{Text, text, text_eq}
use ig.Failure.{Result, ok, err}
use ig.Disk.{Disk, File, find_file, Answers, Codec, save_json, read_json}

pub record Pin : Type 0 where
  pub key : Text
  pub label : Text

unfoldable pub other_pins : Text → List Pin → List Pin
other_pins key [] = []
other_pins key (p ∷ pins) =
    if not (text_eq p.key key) then p ∷ other_pins key pins else other_pins key pins

-- The list that `Pins::add` saves, and the one that `Pins::remove` saves.
unfoldable pub add_pin : Text → Text → List Pin → List Pin
unfolding other_pins
add_pin key label pins = other_pins key pins ++ record { key = key; label = label } ∷ []

abbrev pub remove_pin : Text → List Pin → List Pin
remove_pin = other_pins

-- The label that a key is pinned under.
unfoldable pub pinned : Text → List Pin → Option Text
pinned key [] = none
pinned key (p ∷ pins) = if text_eq p.key key then some p.label else pinned key pins

-- Pins live next to the key.
unfoldable pub pins_path : Text → Text
pins_path key_path = key_path ++ text ".peers.json"

load_file : Codec (List Pin) → Text → Option Text → Option File → Result (List Pin)
load_file codec path failed none = ok []
load_file codec path failed (some f) =
    read_json codec (text "failed to read " ++ path) (text "failed to parse " ++ path) failed f

unfoldable pub load : Codec (List Pin) → Text → Answers → Disk → Result (List Pin)
unfolding load_file
load codec path a disk = load_file codec path a.reading (find_file path disk)

-- Load, change the list, save.
edit :
    Codec (List Pin)
    → Text
    → ℕ
    → (List Pin → List Pin)
    → Answers
    → Disk
    → Result (List Pin)
    → Disk × Result (Unit {0})
edit codec path pid change a disk (err e) = (disk, err e)
edit codec path pid change a disk (ok pins) = save_json codec path pid (change pins) a disk

unfoldable pub add :
    Codec (List Pin) → Text → ℕ → Text → Text → Answers → Disk → Disk × Result (Unit {0})
unfolding edit add_pin
add codec path pid key label a disk =
    edit codec path pid (add_pin key label) a disk (load codec path a disk)

unfoldable pub remove :
    Codec (List Pin) → Text → ℕ → Text → Answers → Disk → Disk × Result (Unit {0})
unfolding edit
remove codec path pid key a disk =
    edit codec path pid (remove_pin key) a disk (load codec path a disk)
