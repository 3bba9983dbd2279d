-- ===== src/Disk.antt =====
-- state.rs, the shared writer: `write_json` and `write_private`, as the calls they make to the
-- system, given what the system answers. A crash leaves the effects of the calls made so far.
pub mod Effects
pub mod Swap
pub mod Atomic
pub mod Sample
mod Tests
use ig.Base.{
  ℕ, zero, suc, ◌≡◌, Bool, true, false, Option, none, some, List, [], ◌∷◌, ◌++◌, if◌then◌else◌, map,
  is_empty, take,
}
use ig.Base.Text.{Text, text, text_eq, decimal, rsplit_once}
use ig.Failure.{Error, Result, ok, err, note, anyhow, with_context}

pub record File : Type 0 where
  pub content : List ℕ
  pub mode : ℕ

abbrev pub Disk : Type 0
Disk = List (Text × File)

unfoldable pub find_file : Text → Disk → Option File
find_file path [] = none
find_file path ((p, f) ∷ disk) = if text_eq p path then some f else find_file path disk

unfoldable pub put_file : Text → File → Disk → Disk
put_file path f [] = (path, f) ∷ []
put_file path f ((p, g) ∷ disk) =
    if text_eq p path then (p, f) ∷ disk else (p, g) ∷ put_file path f disk

unfoldable pub drop_file : Text → Disk → Disk
drop_file path [] = []
drop_file path ((p, g) ∷ disk) =
    if text_eq p path then drop_file path disk else (p, g) ∷ drop_file path disk

-- The calls that change the disk. `create` opens for writing, truncates, and gives a new file the
-- mode asked for; an old file keeps its mode. `append` writes one byte.
pub data Action : Type 0 where
  create : ℕ → Text → Action
  append : Text → ℕ → Action
  rename : Text → Text → Action
  unlink : Text → Action

abbrev pub private_mode : ℕ
private_mode = 0o600

unfoldable pub truncated : ℕ → Option File → File
truncated mode none = record { content = []; mode = mode }
truncated mode (some f) = record { content = []; mode = f.mode }

appended : Text → ℕ → Option File → Disk → Disk
appended path b none disk = disk
appended path b (some f) disk = put_file path (record f { content = f.content ++ b ∷ [] }) disk

renamed : Text → Text → Option File → Disk → Disk
renamed from to none disk = disk
renamed from to (some f) disk = put_file to f (drop_file from disk)

unfoldable pub act : Action → Disk → Disk
unfolding truncated appended renamed
act (create mode path) disk = put_file path (truncated mode (find_file path disk)) disk
act (append path b) disk = appended path b (find_file path disk) disk
act (rename from to) disk = renamed from to (find_file from disk) disk
act (unlink path) disk = drop_file path disk

unfoldable pub perform : List Action → Disk → Disk
perform [] disk = disk
perform (a ∷ actions) disk = perform actions (act a disk)

-- What the system answers to each call: `none`, or the message of its error. `written` is how much
-- of the data a failed write left behind.
pub record Answers : Type 0 where
  pub mkdir : Option Text
  pub opening : Option Text
  pub written : ℕ
  pub write : Option Text
  pub sync : Option Text
  pub renaming : Option Text
  pub unlinked : Bool
  pub reading : Option Text

abbrev pub success : Answers
success = record {
  mkdir = none;
  opening = none;
  written = 0;
  write = none;
  sync = none;
  renaming = none;
  unlinked = true;
  reading = none;
}

pub appends : Text → List ℕ → List Action
appends path bytes = map (append path) bytes

-- `write_all`, then `sync_all`, by the answers to the two.
unfoldable pub written : Text → List ℕ → ℕ → Option Text → Option Text → List Action × Option Text
unfolding appends
written path bytes n (some e) sync = (appends path (take n bytes), some e)
written path bytes n none sync = (appends path bytes, sync)

unfoldable pub opened :
    ℕ → Text → Option Text → List Action × Option Text → List Action × Option Text
opened mode path (some e) rest = ([], some e)
opened mode path none (actions, failed) = (create mode path ∷ actions, failed)

-- A file opened with this mode, its content written and synced.
unfoldable pub write_with : ℕ → Text → List ℕ → Answers → List Action × Option Text
unfolding written opened
write_with mode path bytes a =
    opened mode path a.opening (written path bytes a.written a.write a.sync)

write_private : Text → List ℕ → Answers → List Action × Option Text
unfolding write_with
write_private path bytes a = write_with private_mode path bytes a

-- The sibling that is written first.
pub temporary : Text → ℕ → Text
temporary path pid = path ++ (text "." ++ (decimal pid ++ text ".tmp"))

folder : Option (Text × Text) → Option Text
folder none = none
folder (some (head, tail)) = some (if is_empty head then text "/" else head)

-- `path.parent()`, where it is not empty.
parent : Text → Option Text
unfolding folder
parent path = folder (rsplit_once b'/' path)

create_parent : Option Text → Option Text → Option Error
create_parent none answer = none
create_parent (some dir) none = none
create_parent (some dir) (some e) = some (note (text "failed to create " ++ dir) ∷ anyhow e)

unfoldable pub cleanup : Text → Bool → List Action
cleanup tmp true = unlink tmp ∷ []
cleanup tmp false = []

replace :
    Text → Text → Option Text → Bool → List Action × Option Text → List Action × Result (Unit {0})
replace path tmp renaming unlinked (actions, some e) =
    (actions, err (note (text "failed to write " ++ tmp) ∷ anyhow e))
replace path tmp (some e) unlinked (actions, none) =
    (actions ++ cleanup tmp unlinked, err (note (text "failed to replace " ++ path) ∷ anyhow e))
replace path tmp none unlinked (actions, none) = (actions ++ rename tmp path ∷ [], ok tt)

after_parent : Option Error → List Action × Result (Unit {0}) → List Action × Result (Unit {0})
after_parent (some e) rest = ([], err e)
after_parent none rest = rest

with_encoded :
    Result (List ℕ) → (List ℕ → List Action × Result (Unit {0})) → List Action × Result (Unit {0})
with_encoded (err e) f = ([], err e)
with_encoded (ok bytes) f = f bytes

-- `encoded` is what the encoder makes of the value.
unfoldable pub write_json : Text → ℕ → Result (List ℕ) → Answers → List Action × Result (Unit {0})
unfolding write_private temporary parent create_parent cleanup replace after_parent with_encoded
write_json path pid encoded a =
    let tmp = temporary path pid in
    after_parent (create_parent (parent path) a.mkdir) (
      with_encoded encoded
        λ bytes. replace path tmp a.renaming a.unlinked (write_private tmp bytes a))

-- The encoder and decoder of a type, which are a library's: what was encoded decodes to itself.
pub record Codec (A : Type 0) : Type 0 where
  pub encode : A → Result (List ℕ)
  pub decode : List ℕ → Result A
  pub round_trip : (a : A) (bytes : List ℕ) → encode a ≡ ok bytes → decode bytes ≡ ok a

-- The disk after a value was written, and what the writer reports.
abbrev pub save_json :
    {A : Type 0} → Codec A → Text → ℕ → A → Answers → Disk → Disk × Result (Unit {0})
save_json codec path pid value a disk =
    let out = write_json path pid (codec.encode value) a in (perform out.0 disk, out.1)

-- `std::fs::read` and the decoder, for a file that is there. `failed` is the answer of the read.
unfoldable pub read_json : {A : Type 0} → Codec A → Text → Text → Option Text → File → Result A
read_json codec reading parsing (some e) f = err (note reading ∷ anyhow e)
read_json codec reading parsing none f = with_context parsing (codec.decode f.content)
