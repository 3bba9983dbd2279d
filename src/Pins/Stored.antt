-- ===== src/Pins/Stored.antt =====
-- enroll.rs, `Pins::add` and `Pins::remove`: what the next load gives.
use ig.Base.{ℕ, ◌≡◌, refl, Option, none, some, List, arith, ap, ◌∙◌, if◌then◌else◌}
use ig.Base.Map.{map_option}
use ig.Base.Text.{Text, text_eq}
use ig.Failure.{Result, ok, err}
use ig.Disk.{
  Disk, File, Action, temporary, find_file, Answers, Codec, write_json, perform, read_json,
}
use ig.Disk.Atomic.{Holds, write_json-Outcome, Outcome}
use ig.Pins.{Pin, load, load_file, edit, add, remove, add_pin, remove_pin, pinned}
use ig.Pins.Pinned.{pinned-add_pin, pinned-other_pins}

load_file-content :
    (codec : Codec (List Pin)) (path : Text) (o : Option File) (pins : List Pin) (bytes : List ℕ)
    → codec.encode pins ≡ ok bytes
    → map_option (λ f. f.content) o ≡ some bytes
    → load_file codec path none o ≡ ok pins
unfolding load_file read_json
load_file-content codec path none pins bytes e h = cc
load_file-content codec path (some f) pins bytes e h =
    let same : f.content ≡ bytes = ground arith in rw (same, codec.round_trip pins bytes e)

load-Holds :
    (codec : Codec (List Pin)) (path : Text) (a : Answers) (disk : Disk) (pins : List Pin)
    → a.reading ≡ none
    → Holds path (codec.encode pins) disk
    → load codec path a disk ≡ ok pins
unfolding load
load-Holds codec path a disk pins r (bytes, e, h) =
    ap (λ answer. load_file codec path answer (find_file path disk)) r
    ∙ load_file-content codec path (find_file path disk) pins bytes e h

-- The label of a key in what was loaded, and `none` where loading failed.
abbrev pub label_in : Result (List Pin) → Text → Option Text
label_in (ok pins) key = pinned key pins
label_in (err e) key = none

-- An edit that reports success turned the list on disk into the changed one; one that reports an
-- error left the file alone.
abbrev Edited :
    Codec (List Pin)
    → Text
    → (List Pin → List Pin)
    → Answers
    → Answers
    → Disk
    → Disk × Result (Unit {0})
    → Type 0
Edited codec path change a later before (after, ok _) =
    (pins : List Pin) × (load codec path a before ≡ ok pins)
    × (load codec path later after ≡ ok (change pins))
Edited codec path change a later before (after, err e) =
    find_file path after ≡ find_file path before

edit-Edited :
    (codec : Codec (List Pin)) (path : Text) (pid : ℕ) (change : List Pin → List Pin)
    (a later : Answers) (disk : Disk) (r : Result (List Pin))
    → later.reading ≡ none
    → load codec path a disk ≡ r
    → Edited codec path change a later disk (edit codec path pid change a disk r)
unfolding edit
edit-Edited codec path pid change a later disk (err e) h l = refl
edit-Edited codec path pid change a later disk (ok pins) h l =
    go (write_json path pid (codec.encode (change pins)) a)
      (write_json-Outcome path pid (codec.encode (change pins)) a disk)
  where
    go :
        (out : List Action × Result (Unit {0}))
        → Outcome path (temporary path pid) (codec.encode (change pins)) disk out
        → Edited codec path change a later disk (perform out.0 disk, out.1)
    go (actions, ok _) o = (pins, l, load-Holds codec path later _ (change pins) h o.0)
    go (actions, err e) o = o

add-Edited :
    (codec : Codec (List Pin)) (path : Text) (pid : ℕ) (key label : Text) (a later : Answers)
    (disk : Disk)
    → later.reading ≡ none
    → Edited codec path (add_pin key label) a later disk (add codec path pid key label a disk)
unfolding add
add-Edited codec path pid key label a later disk h =
    edit-Edited codec path pid (add_pin key label) a later disk (load codec path a disk) h refl

remove-Edited :
    (codec : Codec (List Pin)) (path : Text) (pid : ℕ) (key : Text) (a later : Answers)
    (disk : Disk)
    → later.reading ≡ none
    → Edited codec path (remove_pin key) a later disk (remove codec path pid key a disk)
unfolding remove
remove-Edited codec path pid key a later disk h =
    edit-Edited codec path pid (remove_pin key) a later disk (load codec path a disk) h refl

-- The labels on disk before and after an edit that answers `label` for `key`.
abbrev pub Relabels :
    Codec (List Pin)
    → Text
    → Text
    → Option Text
    → Answers
    → Answers
    → Disk
    → Disk × Result (Unit {0})
    → Type 0
Relabels codec path key label a later before (after, ok _) =
    (other : Text)
    → label_in (load codec path later after) other
      ≡ (if text_eq key other then label else label_in (load codec path a before) other)
Relabels codec path key label a later before (after, err e) =
    find_file path after ≡ find_file path before

relabels :
    (codec : Codec (List Pin)) (path key : Text) (label : Option Text)
    (change : List Pin → List Pin) (a later : Answers) (disk : Disk)
    (out : Disk × Result (Unit {0}))
    → ((other : Text) (pins : List Pin)
        → pinned other (change pins) ≡ (if text_eq key other then label else pinned other pins))
    → Edited codec path change a later disk out
    → Relabels codec path key label a later disk out
relabels codec path key label change a later disk (after, ok _) law (pins, l, l') =
    λ other. rw (l, l') (law other pins)
relabels codec path key label change a later disk (after, err e) law same = same

-- As the next load that can read the file sees it, pinning gives the key its label and removing a
-- pin takes it away; the other pins stay, and an edit that fails leaves the file alone.
pub pins-stored :
    (codec : Codec (List Pin)) (path : Text) (pid : ℕ) (key label : Text) (a later : Answers)
    (disk : Disk)
    → later.reading ≡ none
    → Relabels codec path key (some label) a later disk (add codec path pid key label a disk)
      × Relabels codec path key none a later disk (remove codec path pid key a disk)
pins-stored codec path pid key label a later disk h = (
  relabels codec path key (some label) (add_pin key label) a later disk _
      (λ other pins. pinned-add_pin key label other pins)
      (add-Edited codec path pid key label a later disk h),
  relabels codec path key none (remove_pin key) a later disk _
      (λ other pins. pinned-other_pins key other pins)
      (remove-Edited codec path pid key a later disk h),
)
